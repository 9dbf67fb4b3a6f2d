-- ===== src/Dict/Versions.antt =====
-- The texts of strings and of the versions of an item.
use native.Mathlib.Nat.{add-zero}
use pupa.Common.{
  ℕ, zero, suc, ◌+◌, ◌≤◌, ◌<◌, ◌≡◌, ◌∙◌, ◌↔◌, ap, refl, true, some, none, List, [], ◌∷◌, arith,
  take, get_elem?, length,
}
use pupa.Memory.{Mem}
use pupa.Layout.{Header}
use pupa.Item.{Str}
use pupa.Item.Order.{SameStr, SameBytes}
use pupa.Store.{item_value}
use pupa.Common.Texts.{Text, bytes_text, same_text}
use pupa.Dict.{str_text}

bytes_text-ext : (n : ℕ) (f g : ℕ → ℕ) → SameBytes n f g → bytes_text n f ≡ bytes_text n g
bytes_text-ext zero f g h = refl
bytes_text-ext (suc n) f g h =
    rw
      (
        h 0 (omega arith),
        bytes_text-ext n (λ i. f (suc i)) (λ i. g (suc i)) (λ i l. h (suc i) (omega arith)),
      )
      refl

SameBytes-cons :
    (n : ℕ) (f g : ℕ → ℕ)
    → f 0 ≡ g 0
    → SameBytes n (λ i. f (suc i)) (λ i. g (suc i))
    → SameBytes (suc n) f g
SameBytes-cons n f g e h zero l = e
SameBytes-cons n f g e h (suc i) l = h i (omega arith)

text-bytes : (n m : ℕ) (f g : ℕ → ℕ) → bytes_text n f ≡ bytes_text m g → (n ≡ m) × SameBytes n f g
text-bytes zero zero f g e = (refl, λ i l. absurd (omega arith))
text-bytes zero (suc m) f g e = absurd (cc)
text-bytes (suc n) zero f g e = absurd (cc)
text-bytes (suc n) (suc m) f g e =
    let (len, same) = text-bytes n m (λ i. f (suc i)) (λ i. g (suc i)) (cc) in
    (ap suc len, SameBytes-cons n f g (cc) same)

-- Two strings are the same if and only if their texts are equal.
pub SameStr-text : (a b : Str) → SameStr a b ↔ (str_text a ≡ str_text b)
SameStr-text a b = (
  (λ s.
      bytes_text-ext a.len a.bytes b.bytes s.same_bytes
      ∙ ap (λ n. bytes_text n b.bytes) s.same_len),
  λ e.
      let (len, bytes) = text-bytes a.len b.len a.bytes b.bytes e in
      record { same_len = len; same_bytes = bytes },
)

pub same_text_iff : (x y : Text) → (same_text x y ≡ true) ↔ (x ≡ y)
same_text_iff [] [] = ((λ h. refl), λ h. refl)
same_text_iff [] (y ∷ ys) = ((λ h. absurd (cc)), λ h. absurd (cc))
same_text_iff (x ∷ xs) [] = ((λ h. absurd (cc)), λ h. absurd (cc))
same_text_iff (x ∷ xs) (y ∷ ys) =
    let (to, from) = same_text_iff xs ys in
    ((λ h. ground (arith, to)), λ h. ground (arith, from (cc)))

-- The texts of the `n` versions from `v` on.
abbrev pub versions : Header → Mem → ℕ → ℕ → ℕ → List Text
versions h m a v zero = []
versions h m a v (suc n) = str_text (item_value h m a v) ∷ versions h m a (suc v) n

pub versions-ext :
    (h h' : Header) (m m' : Mem) (a b v v' n : ℕ)
    → ((i : ℕ) → i < n → SameStr (item_value h m a (v + i)) (item_value h' m' b (v' + i)))
    → versions h m a v n ≡ versions h' m' b v' n
versions-ext h h' m m' a b v v' zero same = refl
versions-ext h h' m m' a b v v' (suc n) same =
    let here : SameStr (item_value h m a v) (item_value h' m' b v') =
      rw (add-zero, add-zero) at (same 0 (omega arith)) in
    let rest : versions h m a (suc v) n ≡ versions h' m' b (suc v') n =
      versions-ext h h' m m' a b (suc v) (suc v') n (λ i l.
        let e : suc v + i ≡ v + suc i = omega arith in
        let e' : suc v' + i ≡ v' + suc i = omega arith in
        rw (e, e') (same (suc i) (omega arith))) in
    rw ((SameStr-text _ _).0 here, rest) refl

pub versions-take :
    (h : Header) (m : Mem) (a v n k : ℕ) → k ≤ n → take k (versions h m a v n) ≡ versions h m a v k
versions-take h m a v zero zero l = refl
versions-take h m a v (suc n) zero l = refl
versions-take h m a v zero (suc k) l = absurd (omega arith)
versions-take h m a v (suc n) (suc k) l = rw (versions-take h m a (suc v) n k (omega arith)) refl

pub take_all {ℓ} : {A : Type ℓ} (k : ℕ) (xs : List A) → length xs ≤ k → take k xs ≡ xs
take_all zero [] l = refl
take_all zero (x ∷ xs) l = absurd (omega arith)
take_all (suc k) [] l = refl
take_all (suc k) (x ∷ xs) l = ap (λ t. x ∷ t) (take_all k xs (omega arith))

pub length-versions : (h : Header) (m : Mem) (a v n : ℕ) → length (versions h m a v n) ≡ n
length-versions h m a v zero = refl
length-versions h m a v (suc n) = ap suc (length-versions h m a (suc v) n)

pub versions-get :
    (h : Header) (m : Mem) (a v n i : ℕ)
    → i < n
    → get_elem? (versions h m a v n) i ≡ some (str_text (item_value h m a (v + i)))
versions-get h m a v zero i l = absurd (omega arith)
versions-get h m a v (suc n) zero l = rw add-zero refl
versions-get h m a v (suc n) (suc i) l =
    let e : suc v + i ≡ v + suc i = omega arith in
    rw (← e) (versions-get h m a (suc v) n i (omega arith))

pub versions-get_none :
    (h : Header) (m : Mem) (a v n i : ℕ) → n ≤ i → get_elem? (versions h m a v n) i ≡ none
versions-get_none h m a v zero i l = refl
versions-get_none h m a v (suc n) zero l = absurd (omega arith)
versions-get_none h m a v (suc n) (suc i) l = versions-get_none h m a (suc v) n i (omega arith)
