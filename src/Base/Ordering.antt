-- ===== src/Base/Ordering.antt =====
-- `sort.Slice` by an order in which no two different elements tie: the result depends only on what is
-- sorted; and `join`, the separators between texts.
use mathlib.Core.Path.{◌≡◌, refl, ◌∙◌, subst}
use mathlib.Core.Bool.{Bool, true, false}
use mathlib.Core.List.{List, [], ◌∷◌, ◌++◌, Permᴰ}
use mathlib.Core.List.Permᴰ
use native.Mathlib.Omega.{arith}
use demesne.Base.Tests.{if◌then◌else◌}
use demesne.Base.Classes.{Str}

pub record TotalOrder {ℓ} (A : Type ℓ) : Type ℓ where
  pub le : A → A → Bool
  pub le_total : (a b : A) → le a b ≡ false → le b a ≡ true
  pub le_antisym : (a b : A) → le a b ≡ true → le b a ≡ true → a ≡ b
  pub le_trans : (a b c : A) → le a b ≡ true → le b c ≡ true → le a c ≡ true

module _ {ℓ} {A : Type ℓ} where
  unfoldable pub insert_by : (A → A → Bool) → A → List A → List A
  insert_by le s [] = s ∷ []
  insert_by le s (t ∷ ts) = let rest = insert_by le s ts in if le s t then s ∷ t ∷ ts else t ∷ rest

  unfoldable pub sort_by : (A → A → Bool) → List A → List A
  sort_by le [] = []
  sort_by le (s ∷ ts) = insert_by le s (sort_by le ts)

  -- Those that pass a test, in order.
  unfoldable pub filter_by : (A → Bool) → List A → List A
  filter_by p [] = []
  filter_by p (x ∷ xs) = let rest = filter_by p xs in if p x then x ∷ rest else rest

  keep-Permᴰ :
      (b : Bool) (x : A) {xs ys : List A}
      → Permᴰ xs ys
      → Permᴰ (if b then x ∷ xs else xs) (if b then x ∷ ys else ys)
  keep-Permᴰ true x q = Permᴰ.cons refl q
  keep-Permᴰ false x q = q

  swap-Permᴰ :
      (b c : Bool) (x y : A) (xs : List A)
      → let ys = if c then y ∷ xs else xs in
        let zs = if b then x ∷ xs else xs in
        Permᴰ (if b then x ∷ ys else ys) (if c then y ∷ zs else zs)
  swap-Permᴰ true true x y xs = Permᴰ.swap refl refl
  swap-Permᴰ true false x y xs = Permᴰ.refl (x ∷ xs)
  swap-Permᴰ false true x y xs = Permᴰ.refl (y ∷ xs)
  swap-Permᴰ false false x y xs = Permᴰ.refl xs

  pub filter_by-Permᴰ :
      (p : A → Bool) {xs ys : List A} → Permᴰ xs ys → Permᴰ (filter_by p xs) (filter_by p ys)
  unfolding filter_by
  filter_by-Permᴰ p Permᴰ.nil = Permᴰ.nil
  filter_by-Permᴰ p (Permᴰ.cons {a} {b} {l₁} {l₂} e q) =
      subst (λ z. Permᴰ (filter_by p (a ∷ l₁)) (filter_by p (z ∷ l₂))) e
        (keep-Permᴰ (p a) a (filter_by-Permᴰ p q))
  filter_by-Permᴰ p (Permᴰ.swap {a = a} {b = b} {a' = c} {b' = d} {l = l} e₁ e₂) =
      subst (λ z. Permᴰ (filter_by p (a ∷ b ∷ l)) (filter_by p (z ∷ d ∷ l))) e₂
        (subst (λ z. Permᴰ (filter_by p (a ∷ b ∷ l)) (filter_by p (b ∷ z ∷ l))) e₁
          (swap-Permᴰ (p a) (p b) a b (filter_by p l)))
  filter_by-Permᴰ p (Permᴰ.trans q r) = Permᴰ.trans (filter_by-Permᴰ p q) (filter_by-Permᴰ p r)

  module _ (o : TotalOrder A) where
    insert_by_comm :
        (r s : A) (ts : List A)
        → insert_by o.le r (insert_by o.le s ts) ≡ insert_by o.le s (insert_by o.le r ts)
    unfolding insert_by
    insert_by_comm r s [] = ground (arith, o.le_total r s, o.le_total s r, o.le_antisym r s)
    insert_by_comm r s (t ∷ ts) = ground (
      arith,
      o.le_total r s,
      o.le_total s r,
      o.le_antisym r s,
      o.le_total r t,
      o.le_total s t,
      o.le_trans r s t,
      o.le_trans s r t,
      insert_by_comm r s ts,
    )

    pub sort_by-Permᴰ : {xs ys : List A} → Permᴰ xs ys → sort_by o.le xs ≡ sort_by o.le ys
    unfolding sort_by
    sort_by-Permᴰ Permᴰ.nil = refl
    sort_by-Permᴰ (Permᴰ.cons e p) = cc (sort_by-Permᴰ p)
    sort_by-Permᴰ (Permᴰ.swap {a} {b} {l} e₁ e₂) = cc (insert_by_comm a b (sort_by o.le l))
    sort_by-Permᴰ (Permᴰ.trans p q) = sort_by-Permᴰ p ∙ sort_by-Permᴰ q

-- `strings.Join(parts, sep)`
unfoldable pub join : Str → List Str → Str
join sep [] = []
join sep (s ∷ []) = s
join sep (s ∷ t ∷ ts) = s ++ (sep ++ join sep (t ∷ ts))
