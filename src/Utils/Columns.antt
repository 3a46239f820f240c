-- ===== src/Utils/Columns.antt =====
-- The table of the experiment's options: what is printed, and that its columns stand under their titles.
use lsm_workload_aware_compa.Prelude.{
  ℕ, suc, ◌+◌, ◌-◌, ◌%◌, ◌^◌, ◌≤◌, ◌<◌, ◌≡◌, refl, sym, ap, ◌∙◌, true, List, [], ◌∷◌, ◌++◌,
  append_assoc, append-nil, zero, arith, All, length, length-append, lt→ltb,
}
use lsm_workload_aware_compa.Prelude.Int.{pos, ltb_ℤ, long_of_bits}
use lsm_workload_aware_compa.Double.{DoubleOps}
use lsm_workload_aware_compa.Buffer.{Text, Buffer}
use lsm_workload_aware_compa.Buffer.Stream.{
  contents, put_all, put-contents, put_all-contents_from, concat,
}
use lsm_workload_aware_compa.Env.{
  DbEnv, get_buffer_size, get_target_file_size_base, get_max_bytes_for_level_base,
}
use lsm_workload_aware_compa.Utils.{
  DoubleText, Cell, spaces, pad_left, print_column, print_columns, titles, values,
  print_experimental_setup,
}
use lsm_workload_aware_compa.Utils.Decimal.{newline, signed, length-decimal}

-- A row of the table.
unfoldable pub row : List Cell → Text
row [] = newline
row (c ∷ cs) = pad_left c.width c.value ++ row cs

-- Where each column of a row ends.
unfoldable pub ends : ℕ → List Cell → List ℕ
ends n [] = []
ends n (c ∷ cs) = let m = n + length (pad_left c.width c.value) in m ∷ ends m cs

-- Where the columns of the given widths end.
ends_of_widths : ℕ → List Cell → List ℕ
ends_of_widths n [] = []
ends_of_widths n (c ∷ cs) = (n + c.width) ∷ ends_of_widths (n + c.width) cs

abbrev Fits : Cell → Type 0
Fits c = length c.value ≤ c.width

print_column-contents :
    (b : Buffer) (c : Cell) → contents (print_column b c) ≡ contents b ++ pad_left c.width c.value
unfolding print_column put_all concat
print_column-contents b c =
    put_all-contents_from b ([] ∷ [] ∷ pad_left c.width c.value ∷ [])
    ∙ ap (◌++◌ (contents b)) (append-nil (pad_left c.width c.value))

print_columns-contents :
    (b : Buffer) (cs : List Cell) → contents (print_columns b cs) ≡ contents b ++ row cs
unfolding print_columns row
print_columns-contents b [] = put-contents b newline
print_columns-contents b (c ∷ cs) =
    print_columns-contents (print_column b c) cs
    ∙ ap (λ t. t ++ row cs) (print_column-contents b c)
    ∙ append_assoc (contents b) (pad_left c.width c.value) (row cs)

length-spaces : (n : ℕ) → length (spaces n) ≡ n
unfolding spaces
length-spaces zero = refl
length-spaces (suc n) = ap suc (length-spaces n)

length-pad_left : (c : Cell) → Fits c → length (pad_left c.width c.value) ≡ c.width
unfolding pad_left
length-pad_left c h = omega (
  arith,
  length-append {0} (spaces (c.width - length c.value)) c.value,
  length-spaces (c.width - length c.value),
)

ends-eq-widths : (n : ℕ) (cs : List Cell) → All Fits cs → ends n cs ≡ ends_of_widths n cs
unfolding ends ends_of_widths
ends-eq-widths n [] h = refl
ends-eq-widths n (c ∷ cs) h =
    rw (length-pad_left c h.0) (ap (◌∷◌ (n + c.width)) (ends-eq-widths (n + c.width) cs h.1))

module _ (fp : DoubleOps) (print : DoubleText fp) where
  -- The options whose texts are no wider than their columns.
  pub record IsPrintable (e : DbEnv) : Type 0 where
    pub style : e.compaction_style < 10 ^ 10
    pub pri : e.compaction_pri < 10 ^ 10
    pub ratio : length (print.whole_text e.size_ratio) ≤ 4
    pub pages : e.buffer_size_in_pages < 10 ^ 10
    pub per_page : e.entries_per_page < 10 ^ 10
    pub entry : e.entry_size < 10 ^ 10
    pub size : get_buffer_size e < 10 ^ 10
    pub cache : length (signed e.table.block_cache) ≤ 10
    pub bits : length (print.whole_text e.bits_per_key) ≤ 10

  values-Fits : (e : DbEnv) → IsPrintable e → All Fits (values fp print e)
  unfolding get_target_file_size_base get_max_bytes_for_level_base signed
  values-Fits e h =
      let s = get_buffer_size e in
      let small : long_of_bits s ≡ pos s = rw (lt→ltb s (2 ^ 63) (omega (arith, h.size))) refl in
      let same : s % 2 ^ 64 ≡ s = omega (arith, h.size) in
      (
        length-decimal _ 9 h.style,
        (
          length-decimal _ 9 h.pri,
          (
            h.ratio,
            (
              length-decimal _ 9 h.pages,
              (
                length-decimal _ 9 h.per_page,
                (
                  length-decimal _ 9 h.entry,
                  (
                    length-decimal _ 9 h.size,
                    (
                      rw small (length-decimal _ 9 h.size),
                      (rw (small, same) (length-decimal _ 9 h.size), (h.cache, (h.bits, tt))),
                    ),
                  ),
                ),
              ),
            ),
          ),
        ),
      )

  -- With printing on, and options whose texts are no wider than their columns, the table is a row of
  -- titles and a row of values behind what was in the buffer, and each value ends in its row where its
  -- title ends in the other.
  pub print_experimental_setup-aligned :
      (e : DbEnv) (b : Buffer)
      → ltb_ℤ (pos 0) e.db.verbosity ≡ true
      → IsPrintable e
      → (contents (print_experimental_setup fp print e b)
          ≡ contents b ++ (row titles ++ row (values fp print e)))
        × (ends 0 titles ≡ ends 0 (values fp print e))
  unfolding print_experimental_setup ends ends_of_widths
  print_experimental_setup-aligned e b verbose h = (
    rw verbose (
        print_columns-contents (print_columns b titles) (values fp print e)
        ∙ ap (λ t. t ++ row (values fp print e)) (print_columns-contents b titles)
        ∙ append_assoc (contents b) (row titles) (row (values fp print e))),
    ends-eq-widths 0 titles (omega arith)
        ∙ sym (ends-eq-widths 0 (values fp print e) (values-Fits e h)),
  )
