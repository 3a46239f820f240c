-- ===== src/Workload/Requests.antt =====
-- What a line of the workload asks for (src/run_workload.cc): the words of a line, and the switch on the
-- operation.
use lsm_workload_aware_compa.Prelude.{
  ℕ, Bool, ◌&&◌, ◌||◌, Option, none, some, [], ◌∷◌, if◌then◌else◌, ◌==◌, leb,
}
use lsm_workload_aware_compa.Buffer.{Text}

-- White space, as `>>` skips it.
abbrev is_space : ℕ → Bool
is_space c = (c == 32) || (leb 9 c && leb c 13)

unfoldable pub skip_spaces : Text → Text
skip_spaces [] = []
skip_spaces (c ∷ cs) = let rest = skip_spaces cs in if is_space c then rest else c ∷ cs

-- The text up to the next white space, and what is left.
unfoldable pub split_word : Text → Text × Text
split_word [] = ([], [])
split_word (c ∷ cs) =
    let rest = split_word cs in if is_space c then ([], c ∷ cs) else (c ∷ rest.0, rest.1)

-- `stream >> key`; behind the end of the line the word is empty.
unfoldable pub next_word : Text → Text × Text
next_word text = split_word (skip_spaces text)

-- What a line asks of the database.
pub data Request : Type 0 where
  insert update delete_range scan : Text → Text → Request
  delete query : Text → Request
  no_match : Request

abbrev two_words : (Text → Text → Request) → Text → Request
two_words make text =
    let (first, rest) = next_word text in let (second, _) = next_word rest in make first second

abbrev one_word : (Text → Request) → Text → Request
one_word make text = make (next_word text).0

-- The switch on the operation, with the words that each case reads.
unfoldable pub request_of : ℕ → Text → Request
request_of operation text =
    if operation == 73
    then two_words insert text
    else if operation == 85
    then two_words update text
    else if operation == 68
    then one_word delete text
    else if (operation == 80) || (operation == 81)
    then one_word query text
    else if operation == 83
    then two_words scan text
    else if operation == 82
    then two_words delete_range text
    else no_match

-- A line of white space leaves `operation` uninitialised.
unfoldable pub read_request : Text → Option Request
unfolding request_of
read_request line = elim (skip_spaces line) [ [] ↦ none | c ∷ cs ↦ some (request_of c cs) ]
