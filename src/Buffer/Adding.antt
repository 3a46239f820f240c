-- ===== src/Buffer/Adding.antt =====
-- What code that only writes to a buffer adds to it.
use lsm_workload_aware_compa.Prelude.{
  ◌≡◌, sym, ap, ◌∙◌, Bool, true, false, List, [], ◌++◌, append-nil, append_assoc, if◌then◌else◌,
}
use lsm_workload_aware_compa.Buffer.{Text, Buffer}
use lsm_workload_aware_compa.Buffer.Stream.{contents, put_all, concat, put_all-contents_from}

-- From the one state of the buffer to the other the text is added, at once or not.
pub record Adds (b b' : Buffer) (text : Text) : Type 0 where
  pub added : contents b' ≡ contents b ++ text

pub Adds-then : {b c d : Buffer} {s t : Text} → Adds b c s → Adds c d t → Adds b d (s ++ t)
Adds-then {b = b} {s = s} {t = t} first second = record {
  added = second.added ∙ ap (λ u. u ++ t) first.added ∙ append_assoc (contents b) s t;
}

pub Adds-if :
    (test : Bool) {b c : Buffer} {s : Text}
    → Adds b c s
    → Adds b (if test then c else b) (if test then s else [])
Adds-if true each = each
Adds-if false {b = b} each = record { added = sym (append-nil (contents b)) }

pub Adds-nothing : (b : Buffer) → Adds b b []
Adds-nothing b = record { added = sym (append-nil (contents b)) }

pub put_all-Adds : (b : Buffer) (pieces : List Text) → Adds b (put_all b pieces) (concat pieces)
put_all-Adds b pieces = record { added = put_all-contents_from b pieces }
