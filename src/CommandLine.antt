-- ===== src/CommandLine.antt =====
-- What the programs around the library use of the C library: strings that end with a '\0', `strlen`,
-- `printf` with "%.*s", `atoi`, and `getopt` of glibc with the options that come after a command.
pub mod Printed
use pupa.Common.{
  ℕ, zero, suc, ◌+◌, ◌-◌, ◌*◌, Bool, true, false, ◌&&◌, ◌||◌, List, [], ◌∷◌, ◌++◌, Option, none,
  some, ℤ, pos, negsuc, leb, ◌==◌, if◌then◌else◌, length,
}
use pupa.Common.Texts.{Text, codes, same_text}
use pupa.Item.{Str}

-- The byte at an index of a C string, with the '\0' behind it.
abbrev pub byte_at : Text → ℕ → ℕ
byte_at [] i = 0
byte_at (x ∷ xs) zero = x
byte_at (x ∷ xs) (suc i) = byte_at xs i

-- `data` and `strlen(data)`.
abbrev pub c_str : Text → Str
c_str t = record { len = length t; bytes = byte_at t }

-- What "%.*s" prints of `len` bytes: those in front of the first '\0'.
unfoldable pub printed : (len : ℕ) → (ℕ → ℕ) → Text
printed zero f = []
printed (suc len) f = let rest = printed len (λ i. f (suc i)) in if f 0 == 0 then [] else f 0 ∷ rest

abbrev pub is_space : ℕ → Bool
is_space c = (c == b' ') || (leb 9 c && leb c 13)

abbrev pub is_digit : ℕ → Bool
is_digit c = leb b'0' c && leb c b'9'

abbrev pub number_from : ℕ → Text → ℕ
number_from n [] = n
number_from n (c ∷ cs) =
    let rest = number_from (n * 10 + (c - b'0')) cs in if is_digit c then rest else n

abbrev pub negative : ℕ → ℤ
negative zero = pos 0
negative (suc n) = negsuc n

-- The number itself, where C leaves one that is too large for an `int` undefined.
unfoldable pub atoi : Text → ℤ
atoi [] = pos 0
atoi (c ∷ cs) =
    let rest = atoi cs in
    if is_space c
    then rest
    else if c == b'-'
    then negative (number_from 0 cs)
    else if c == b'+'
    then pos (number_from 0 cs)
    else pos (number_from 0 (c ∷ cs))

-- "f:v:n:"
abbrev pub takes_argument : ℕ → Bool
takes_argument c = (c == b'f') || (c == b'v') || (c == b'n')

-- The options in one word behind its '-': those that are complete, and one that takes the next word.
-- `getopt` reports one that it does not know as '?'.
abbrev pub letters : Text → List (ℕ × Text) × Option ℕ
letters [] = ([], none)
letters (c ∷ []) = if takes_argument c then ([], some c) else ((b'?', []) ∷ [], none)
letters (c ∷ d ∷ cs) =
    let (more, pending) = letters (d ∷ cs) in
    if takes_argument c then ((c, d ∷ cs) ∷ [], none) else ((b'?', []) ∷ more, pending)

-- A word that is no option is passed over.
abbrev pub word_options : Text → List (ℕ × Text) × Option ℕ
word_options [] = ([], none)
word_options (c ∷ cs) = if c == b'-' then letters cs else ([], none)

abbrev pub getopt_from : Option ℕ → List Text → List (ℕ × Text)
getopt_from (some c) [] = (b'?', []) ∷ []
getopt_from (some c) (word ∷ words) = (c, word) ∷ getopt_from none words
getopt_from none [] = []
getopt_from none (word ∷ words) =
    let (found, pending) = word_options word in
    let rest = getopt_from pending words in
    if same_text word (codes "--") then [] else found ++ rest

-- What the calls of `getopt` give for the words from `optind` on: an option with its `optarg` each.
unfoldable pub getopt : List Text → List (ℕ × Text)
getopt words = getopt_from none words
