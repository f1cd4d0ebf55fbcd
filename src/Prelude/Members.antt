-- ===== src/Prelude/Members.antt =====
-- What holds of the members of a list after a filter, a map or a change of order.
use mathlib.Core.Path.{◌≡◌, sym, ◌∙◌, ap, subst}
use mathlib.Core.Logic.{inl, inr}
use mathlib.Core.Bool.{Bool, true}
use mathlib.Core.List.{List, [], ◌∷◌, map, Memᴰ, Permᴰ}
use ruvname.Prelude.Lists.{All, filter}
use ruvname.Prelude.Tests.{Bool-cases}

module _ {A : Type 0} where
  module _ (P : A → Type 0) (p : A → Bool) where
    pub All-filter : (xs : List A) → All P xs → All P (filter p xs)
    All-filter [] all = tt
    All-filter (x ∷ xs) (h, all) = elim (Bool-cases (p x)) [
      | inl e ↦ rw (e, filter) (h, All-filter xs all)
      | inr e ↦ rw (e, filter) (All-filter xs all)
    ]

    pub All-kept : (xs : List A) → All P xs → All (λ x. P x × (p x ≡ true)) (filter p xs)
    All-kept [] all = tt
    All-kept (x ∷ xs) (h, all) = elim (Bool-cases (p x)) [
      | inl e ↦ rw (e, filter) ((h, e), All-kept xs all)
      | inr e ↦ rw (e, filter) (All-kept xs all)
    ]

  pub All-map :
      {B : Type 0} (P : A → Type 0) (Q : B → Type 0) (f : A → B) (xs : List A)
      → ((x : A) → P x → Q (f x))
      → All P xs
      → All Q (map f xs)
  All-map P Q f [] imp all = tt
  All-map P Q f (x ∷ xs) imp (h, all) = (imp x h, All-map P Q f xs imp all)

  pub All-Permᴰ : (P : A → Type 0) {xs ys : List A} → Permᴰ xs ys → All P xs → All P ys
  All-Permᴰ P Permᴰ.nil all = tt
  All-Permᴰ P (Permᴰ.cons e d) (h, all) = (subst P e h, All-Permᴰ P d all)
  All-Permᴰ P (Permᴰ.swap e₁ e₂) (h₁, (h₂, all)) = (subst P e₂ h₂, (subst P e₁ h₁, all))
  All-Permᴰ P (Permᴰ.trans d₁ d₂) all = All-Permᴰ P d₂ (All-Permᴰ P d₁ all)

  pub Memᴰ-Permᴰ : {x : A} {xs ys : List A} → Permᴰ xs ys → Memᴰ x xs → Memᴰ x ys
  Memᴰ-Permᴰ Permᴰ.nil m = elim m [ ]
  Memᴰ-Permᴰ (Permᴰ.cons e d) (Memᴰ.head h) = Memᴰ.head (h ∙ e)
  Memᴰ-Permᴰ (Permᴰ.cons e d) (Memᴰ.tail m) = Memᴰ.tail (Memᴰ-Permᴰ d m)
  Memᴰ-Permᴰ (Permᴰ.swap e₁ e₂) (Memᴰ.head h) = Memᴰ.tail (Memᴰ.head (h ∙ e₁))
  Memᴰ-Permᴰ (Permᴰ.swap e₁ e₂) (Memᴰ.tail (Memᴰ.head h)) = Memᴰ.head (h ∙ e₂)
  Memᴰ-Permᴰ (Permᴰ.swap e₁ e₂) (Memᴰ.tail (Memᴰ.tail m)) = Memᴰ.tail (Memᴰ.tail m)
  Memᴰ-Permᴰ (Permᴰ.trans d₁ d₂) m = Memᴰ-Permᴰ d₂ (Memᴰ-Permᴰ d₁ m)

  pub Memᴰ-filter :
      (p : A → Bool) (x : A) (xs : List A) → p x ≡ true → Memᴰ x xs → Memᴰ x (filter p xs)
  Memᴰ-filter p x [] h m = elim m [ ]
  Memᴰ-filter p x (y ∷ ys) h (Memᴰ.head same) = rw (sym (ap p same) ∙ h, filter) (Memᴰ.head same)
  Memᴰ-filter p x (y ∷ ys) h (Memᴰ.tail m) = elim (Bool-cases (p y)) [
    | inl e ↦ rw (e, filter) (Memᴰ.tail (Memᴰ-filter p x ys h m))
    | inr e ↦ rw (e, filter) (Memᴰ-filter p x ys h m)
  ]
