-- ===== src/Shared/Tests.antt =====
-- Boolean tests, the conditional, and equality tests as an interface.
use Prim.Native.Char.{code}
use mathlib.Core.List.{List, [], ◌∷◌}
use Prim.Native.Nat.{ℕ, compare, Ordering}
use Prim.Native.String.{String}
use mathlib.Core.Path.{◌≡◌, refl, ap}
use mathlib.Core.Logic.{◌↔◌, ◌⊎◌, inl, inr}
use mathlib.Core.Bool.{Bool, true, false, ◌&&◌}
use mathlib.Core.Option.{Option, none, some}
use native.Mathlib.Omega.{arith}
use text.Mathlib.Text.{◌==◌ as same_text}
use text.Mathlib.TextEquality.{eq_iff}

abbrev pub ltb : ℕ → ℕ → Bool
ltb a b = elim (compare a b) [ Ordering.lt ↦ true | _ ↦ false ]

abbrev pub leb : ℕ → ℕ → Bool
leb a b = elim (compare a b) [ Ordering.gt ↦ false | _ ↦ true ]

abbrev pub same_number : ℕ → ℕ → Bool
same_number a b = elim (compare a b) [ Ordering.eq ↦ true | _ ↦ false ]

infix 1 if◌then◌else◌
abbrev pub if◌then◌else◌ {ℓ} : {A : Type ℓ} → Bool → A → A → A
if true then x else y = x
if false then x else y = y

-- How many times a test counts.
abbrev pub bit : Bool → ℕ
bit true = 1
bit false = 0

-- A property of both branches; each may use its test.
pub if_cases {ℓ κ} :
    {A : Type ℓ} (P : A → Type κ) (b : Bool) {x y : A}
    → (b ≡ true → P x)
    → (b ≡ false → P y)
    → P (if b then x else y)
if_cases P true h k = h refl
if_cases P false h k = k refl

pub Bool-cases : (b : Bool) → (b ≡ true) ⊎ (b ≡ false)
Bool-cases true = inl refl
Bool-cases false = inr refl

pub Option-cases {ℓ} : {A : Type ℓ} (o : Option A) → (o ≡ none) ⊎ ((a : A) × (o ≡ some a))
Option-cases none = inl refl
Option-cases (some a) = inr (a, refl)

-- The source's `===` on a type.
pub record Eq {ℓ} (T : Type ℓ) : Type ℓ where
  pub is_same : T → T → Bool
  pub is_same_iff : (x y : T) → (is_same x y ≡ true) ↔ (x ≡ y)

module _ {ℓ} {T : Type ℓ} ⦃same : Eq T⦄ where
  infix 50 ◌==◌
  abbrev pub ◌==◌ : T → T → Bool
  ◌==◌ x y = same.is_same x y

-- The characters of a text by their numbers, for the source's regular expressions.
abbrev pub char_codes : String → List ℕ
char_codes String.[] = []
char_codes (String.◌∷◌ first others) = code first ∷ char_codes others

pub same_number_iff : (a b : ℕ) → (same_number a b ≡ true) ↔ (a ≡ b)
same_number_iff a b = ground arith

instance abbrev pub ℕ_eq : Eq ℕ
ℕ_eq = record { is_same = same_number; is_same_iff = same_number_iff }

instance abbrev pub String_eq : Eq String
String_eq = record { is_same = same_text; is_same_iff = eq_iff }

module _ {ℓ} {A : Type ℓ} ⦃e : Eq A⦄ where
  abbrev pub same_option : Option A → Option A → Bool
  same_option none none = true
  same_option none (some b) = false
  same_option (some a) none = false
  same_option (some a) (some b) = e.is_same a b

  pub same_option_iff : (a b : Option A) → (same_option a b ≡ true) ↔ (a ≡ b)
  same_option_iff none none = (λ _. refl, λ _. refl)
  same_option_iff none (some b) = (λ h. cc, λ h. cc)
  same_option_iff (some a) none = (λ h. cc, λ h. cc)
  same_option_iff (some a) (some b) =
      (λ h. ap some ((e.is_same_iff a b).0 h), λ h. (e.is_same_iff a b).1 (cc))

  pub same_refl : (a : A) → e.is_same a a ≡ true
  same_refl a = (e.is_same_iff a a).1 refl

instance abbrev pub Option_eq {ℓ} : {A : Type ℓ} ⦃e : Eq A⦄ → Eq (Option A)
Option_eq = record { is_same = same_option; is_same_iff = same_option_iff }

module _ {ℓ} {A : Type ℓ} ⦃e : Eq A⦄ where
  abbrev pub same_list : List A → List A → Bool
  same_list [] [] = true
  same_list [] (_ ∷ _) = false
  same_list (_ ∷ _) [] = false
  same_list (a ∷ others) (b ∷ rest) = e.is_same a b && same_list others rest

  pub same_list_iff : (front back : List A) → (same_list front back ≡ true) ↔ (front ≡ back)
  same_list_iff [] [] = (λ _. refl, λ _. refl)
  same_list_iff [] (b ∷ rest) = (λ h. cc, λ h. cc)
  same_list_iff (a ∷ others) [] = (λ h. cc, λ h. cc)
  same_list_iff (a ∷ others) (b ∷ rest) = (
    λ h. ground (arith, e.is_same_iff a b, same_list_iff others rest),
    λ h. ground (arith, e.is_same_iff a b, same_list_iff others rest),
  )

instance abbrev pub List_eq {ℓ} : {A : Type ℓ} ⦃e : Eq A⦄ → Eq (List A)
List_eq = record { is_same = same_list; is_same_iff = same_list_iff }

module _ {ℓ κ} {A : Type ℓ} {B : Type κ} ⦃e : Eq A⦄ ⦃f : Eq B⦄ where
  abbrev pub same_pair : A × B → A × B → Bool
  same_pair p q = e.is_same p.0 q.0 && f.is_same p.1 q.1

  pub same_pair_iff : (p q : A × B) → (same_pair p q ≡ true) ↔ (p ≡ q)
  same_pair_iff (a, b) (c, d) = (
    λ h. ground (arith, e.is_same_iff a c, f.is_same_iff b d),
    λ h. ground (arith, e.is_same_iff a c, f.is_same_iff b d),
  )

instance abbrev pub Pair_eq {ℓ κ} : {A : Type ℓ} {B : Type κ} ⦃e : Eq A⦄ ⦃f : Eq B⦄ → Eq (A × B)
Pair_eq = record { is_same = same_pair; is_same_iff = same_pair_iff }
