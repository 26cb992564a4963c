-- ===== src/Prelude/Outcome.antt =====
-- The outcome of a Rust function of the library: `Ok`, `Err` with a variant of `Error` (src/lib.rs,
-- without the messages and causes that the variants carry), or a panic: a slice index out of range,
-- an arithmetic overflow under overflow checks, a failed `assert!` or `unwrap`.
use Prim.Native.Nat.{ℕ, ◌+◌, ◌<◌}
use mathlib.Core.Path.{◌≡◌, refl, ap, ◌∙◌, subst}
use mathlib.Core.Logic.{inl, inr}
use mathlib.Core.Option.{Option, none, some}
use mathlib.Core.List.{List, ◌∷◌, ◌++◌}
use mathlib.Core.Bool.{Bool, true, false}
use native.Mathlib.Omega.{arith}
use libopenraw.Prelude.Lists.{
  length, length-append, length-set, set-append, get_elem?, set, get_or, drop, get_elem?-eq-get_or,
  get_elem?-drop, drop-drop,
}
use libopenraw.Prelude.Tests.{ltb, if◌then◌else◌, Bool-cases}

pub data Error : Type 0 where
  none_error unimplemented unrecognized_format not_supported not_found : Error
  buffer_too_small unexpected_eof io_error format_error already_inited invalid_param : Error
  invalid_format decompression mp4_parse jpeg_format bit_reader_error invalid_address : Error
  other unknown_error : Error

pub data Result {ℓ} (A : Type ℓ) : Type ℓ where
  ok : A → Result A
  err : Error → Result A
  panic : Result A

infixl 5 ◌>>=◌ ◌>>◌
-- The operator `?`: what is not `ok` leaves the function.
abbrev pub ◌>>=◌ {ℓ κ} : {S : Type ℓ} {T : Type κ} → Result S → (S → Result T) → Result T
panic >>= next = panic
err code >>= next = err code
ok value >>= next = next value

abbrev pub ◌>>◌ {ι} : {T : Type ι} → Result (Unit {0}) → Result T → Result T
first >> second = first >>= λ _. second

-- `if test { return Err(e) }`
abbrev pub reject_if : Bool → Error → Result (Unit {0})
reject_if true e = err e
reject_if false e = ok tt

-- A condition under which the code goes on, and panics otherwise.
abbrev pub require : Bool → Result (Unit {0})
require true = ok tt
require false = panic

module _ {ℓ} {A : Type ℓ} where
  abbrev pub or_panic : Option A → Result A
  or_panic none = panic
  or_panic (some a) = ok a

  -- `xs[i]`
  unfoldable pub index : List A → ℕ → Result A
  index xs i = or_panic (get_elem? xs i)

  -- `xs[i] = v`
  unfoldable pub update : List A → ℕ → A → Result (List A)
  update xs i v = if ltb i (length xs) then ok (set xs i v) else panic

  pub index_lem : (xs : List A) (i : ℕ) (d : A) → i < length xs → index xs i ≡ ok (get_or xs i d)
  unfolding index
  index_lem xs i d h = ground (arith, get_elem?-eq-get_or xs i d h)

  -- Reading at a cursor: `drop i xs` is what the cursor has not passed.
  pub index-drop :
      (xs : List A) (i : ℕ) {x : A} {r : List A}
      → drop i xs ≡ x ∷ r
      → (index xs i ≡ ok x) × (drop (i + 1) xs ≡ r)
  unfolding index
  index-drop xs i e = (rw (get_elem?-drop xs i e), drop-drop xs i 1 ∙ ap (drop 1) e)

  pub update_lem : (xs : List A) (i : ℕ) (v : A) → i < length xs → update xs i v ≡ ok (set xs i v)
  unfolding update
  update_lem xs i v h = ground arith

-- What follows a step that did not leave the function returned the result.
pub >>=-ok_inv {ℓ κ} :
    {S : Type ℓ} {T : Type κ} (first : Result S) (next : S → Result T) {result : T}
    → (first >>= next) ≡ ok result
    → (value : S) × (first ≡ ok value) × (next value ≡ ok result)
>>=-ok_inv panic next e = cc
>>=-ok_inv (err code) next e = cc
>>=-ok_inv (ok value) next e = (value, refl, e)

pub bind_assoc {ℓ κ ι} :
    {A : Type ℓ} {B : Type κ} {C : Type ι} (m : Result A) (f : A → Result B) (g : B → Result C)
    → (m >>= f >>= g) ≡ (m >>= λ a. f a >>= g)
bind_assoc (ok a) f g = refl
bind_assoc (err e) f g = refl
bind_assoc panic f g = refl

pub bind_cong {ℓ κ} :
    {A : Type ℓ} {B : Type κ} (m : Result A) {f g : A → Result B}
    → ((a : A) → f a ≡ g a)
    → (m >>= f) ≡ (m >>= g)
bind_cong (ok a) h = h a
bind_cong (err e) h = refl
bind_cong panic h = refl

-- `P` holds of the result, where there is one.
abbrev pub After {ℓ κ} : {S : Type ℓ} → (S → Type κ) → Result S → Type κ
After P panic = Unit {κ}
After P (err code) = Unit {κ}
After P (ok value) = P value

pub After-bind {ℓ κ ι ν} :
    {S : Type ℓ} {T : Type κ} (P : S → Type ι) (Q : T → Type ν) (first : Result S)
    (next : S → Result T)
    → After P first
    → ((value : S) → P value → After Q (next value))
    → After Q (first >>= next)
After-bind P Q panic next h k = tt
After-bind P Q (err code) next h k = tt
After-bind P Q (ok value) next h k = k value h

pub After-any {ℓ} : {S : Type ℓ} (m : Result S) → After (λ _. Unit {0}) m
After-any panic = tt
After-any (err code) = tt
After-any (ok value) = tt

-- A step of which nothing is used.
pub After-skip {ℓ κ ι} :
    {S : Type ℓ} {T : Type κ} (Q : T → Type ι) (first : Result S) (next : S → Result T)
    → ((value : S) → After Q (next value))
    → After Q (first >>= next)
After-skip Q first next k =
    After-bind (λ _. Unit {0}) Q first next (After-any first) (λ value _. k value)

pub After-weaken {ℓ κ ι} :
    {S : Type ℓ} (P : S → Type κ) (Q : S → Type ι) (m : Result S)
    → After P m
    → ((value : S) → P value → Q value)
    → After Q m
After-weaken P Q panic h k = tt
After-weaken P Q (err code) h k = tt
After-weaken P Q (ok value) h k = k value h

pub After-ok {ℓ κ} :
    {S : Type ℓ} (P : S → Type κ) (m : Result S) (value : S) → After P m → m ≡ ok value → P value
After-ok P m value h e = subst (After P) e h

pub After-reject_if : (test : Bool) (e : Error) → After (λ _. test ≡ false) (reject_if test e)
After-reject_if true e = tt
After-reject_if false e = refl

-- Two ways to go on that agree on what the first step can return.
pub After-bind_cong {ℓ κ ι} :
    {S : Type ℓ} {T : Type κ} (P : S → Type ι) (first : Result S) {f g : S → Result T}
    → After P first
    → ((value : S) → P value → f value ≡ g value)
    → (first >>= f) ≡ (first >>= g)
After-bind_cong P panic h k = refl
After-bind_cong P (err code) h k = refl
After-bind_cong P (ok value) h k = k value h

module _ {ℓ} {A : Type ℓ} where
  pub After-update :
      (xs : List A) (i : ℕ) (v : A) → After (λ ys. length ys ≡ length xs) (update xs i v)
  unfolding update
  After-update xs i v = elim (Bool-cases (ltb i (length xs))) [
    | inl e ↦ rw e (length-set xs i v)
    | inr e ↦ rw e tt
  ]

  -- A write at the end of what is written.
  pub update-append :
      (xs ys : List A) (y v : A) (i : ℕ)
      → i ≡ length xs
      → update (xs ++ y ∷ ys) i v ≡ ok (xs ++ v ∷ ys)
  update-append xs ys y v i e =
      update_lem (xs ++ y ∷ ys) i v (omega (arith, length-append xs (y ∷ ys)))
      ∙ ap ok (set-append xs ys y v i e)

-- There is no panic, and `P` holds of the result, where there is one.
abbrev pub Safely {ℓ} : {S : Type ℓ} → (S → Type 0) → Result S → Type 0
Safely P panic = ⊥
Safely P (err code) = Unit {0}
Safely P (ok value) = P value

pub Safely-After {ℓ} : {S : Type ℓ} (P : S → Type 0) (m : Result S) → Safely P m → After P m
Safely-After P panic h = tt
Safely-After P (err code) h = tt
Safely-After P (ok value) h = h

pub Safely-bind {ℓ κ} :
    {S : Type ℓ} {T : Type κ} (P : S → Type 0) (Q : T → Type 0) (first : Result S)
    (next : S → Result T)
    → Safely P first
    → ((value : S) → P value → Safely Q (next value))
    → Safely Q (first >>= next)
Safely-bind P Q panic next h k = h
Safely-bind P Q (err code) next h k = tt
Safely-bind P Q (ok value) next h k = k value h

pub Safely-ok {ℓ} :
    {S : Type ℓ} (P : S → Type 0) (m : Result S) (value : S) → P value → m ≡ ok value → Safely P m
Safely-ok P m value h e = rw e h

pub Safely-reject_if : (test : Bool) (e : Error) → Safely (λ _. test ≡ false) (reject_if test e)
Safely-reject_if true e = tt
Safely-reject_if false e = refl

pub Safely-weaken {ℓ} :
    {S : Type ℓ} (P Q : S → Type 0) (m : Result S)
    → Safely P m
    → ((value : S) → P value → Q value)
    → Safely Q m
Safely-weaken P Q panic h k = h
Safely-weaken P Q (err code) h k = tt
Safely-weaken P Q (ok value) h k = k value h
