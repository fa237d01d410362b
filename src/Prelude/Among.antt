-- ===== src/Prelude/Among.antt =====
-- Being an item of a list.
use mathlib.Core.Path.{◌≡◌, refl, sym, ap, subst}
use mathlib.Core.Logic.{◌⊎◌, inl, inr}
use mathlib.Core.List.{List, [], ◌∷◌, ◌++◌, map}
use enterprise_llm_gateway.Prelude.Lists.{All}

-- It is in the list.
unfoldable pub Among : {A : Type 0} → A → List A → Type 0
Among x [] = ⊥
Among x (y ∷ ys) = (x ≡ y) ⊎ Among x ys

pub Among-skip :
    {A : Type 0} (m best c : A) (cs : List A) → Among m (best ∷ cs) → Among m (best ∷ c ∷ cs)
unfolding Among
Among-skip m best c cs (inl e) = inl e
Among-skip m best c cs (inr h) = inr (inr h)

pub All-Among : {A : Type 0} (P : A → Type 0) (m : A) (xs : List A) → All P xs → Among m xs → P m
unfolding Among
All-Among P m [] p h = absurd h
All-Among P m (x ∷ xs) (p, ps) (inl e) = subst P (sym e) p
All-Among P m (x ∷ xs) (p, ps) (inr h) = All-Among P m xs ps h

pub Among-append :
    {A : Type 0} (x : A) (xs ys : List A) → Among x (xs ++ ys) → Among x xs ⊎ Among x ys
unfolding Among
Among-append x [] ys h = inr h
Among-append x (z ∷ xs) ys (inl e) = inl (inl e)
Among-append x (z ∷ xs) ys (inr h) = elim (Among-append x xs ys h) [
  | inl a ↦ inl (inr a)
  | inr b ↦ inr b
]

pub append-Among_left : {A : Type 0} (x : A) (xs ys : List A) → Among x xs → Among x (xs ++ ys)
unfolding Among
append-Among_left x [] ys h = absurd h
append-Among_left x (z ∷ xs) ys (inl e) = inl e
append-Among_left x (z ∷ xs) ys (inr h) = inr (append-Among_left x xs ys h)

pub Among-map :
    {A B : Type 0} (f : A → B) (y : B) (xs : List A)
    → Among y (map f xs)
    → (x : A) × Among x xs × (y ≡ f x)
unfolding Among
Among-map f y [] h = absurd h
Among-map f y (x ∷ xs) (inl e) = (x, inl refl, e)
Among-map f y (x ∷ xs) (inr h) = let (z, at, e) = Among-map f y xs h in (z, inr at, e)

pub map-Among :
    {A B : Type 0} (f : A → B) (x : A) (xs : List A) → Among x xs → Among (f x) (map f xs)
unfolding Among
map-Among f x [] h = absurd h
map-Among f x (z ∷ xs) (inl e) = inl (ap f e)
map-Among f x (z ∷ xs) (inr h) = inr (map-Among f x xs h)
