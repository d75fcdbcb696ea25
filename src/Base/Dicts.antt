-- ===== src/Base/Dicts.antt =====
-- Python's `dict`: an association list in insertion order.
use mathlib.Core.Path.{◌≡◌, refl}
use mathlib.Core.Logic.{inl, inr}
use mathlib.Core.Bool.{false, ◌||◌}
use mathlib.Core.Option.{Option, none, some}
use mathlib.Core.List.{List, [], ◌∷◌, map, Memᴰ}
use mathlib.Core.List.Memᴰ
use native.Mathlib.Omega.{arith}
use coretrace_python_analyze.Base.Tests.{Bool-cases, if◌then◌else◌}
use coretrace_python_analyze.Base.Lists.{Memᴰ-nil, Memᴰ-cons}
use coretrace_python_analyze.Base.Equality.{Eq, ◌==◌, ==_iff, ==_refl, contains, contains_iff}

abbrev pub Dict {ℓ} : Type ℓ → Type ℓ → Type ℓ
Dict K V = List (K × V)

module _ {ℓ} {K V : Type ℓ} ⦃e : Eq K⦄ where
  -- `d.get(k)`
  unfoldable pub get : K → Dict K V → Option V
  get k [] = none
  get k ((j, v) ∷ d) = if k == j then some v else get k d

  -- `d[k] = v`: in place if `k` is there, else at the end.
  unfoldable pub put : K → V → Dict K V → Dict K V
  put k v [] = (k, v) ∷ []
  put k v ((j, w) ∷ d) = if k == j then (j, v) ∷ d else (j, w) ∷ put k v d

  -- `d.get(k, v)`
  unfoldable pub get_or : K → V → Dict K V → V
  get_or k v d = elim (get k d) [ none ↦ v | some w ↦ w ]

  abbrev pub keys : Dict K V → List K
  keys d = map (λ (p : K × V). p.0) d

  pub get-put :
      (k j : K) (v : V) (d : Dict K V) → get j (put k v d) ≡ (if j == k then some v else get j d)
  unfolding get put
  get-put k j v [] = refl
  get-put k j v ((i, w) ∷ d) = ground (arith, ==_iff k i, ==_iff j i, ==_iff j k, get-put k j v d)

  pub get-put_self : (k : K) (v : V) (d : Dict K V) → get k (put k v d) ≡ some v
  get-put_self k v d = rw (get-put k k v d, ==_refl k)

  pub Memᴰ-of_get : (k : K) (v : V) (d : Dict K V) → get k d ≡ some v → Memᴰ (k, v) d
  unfolding get
  Memᴰ-of_get k v [] h = cc
  Memᴰ-of_get k v ((j, w) ∷ d) h =
      ground (arith, ==_iff k j, Memᴰ-of_get k v d, Memᴰ-cons (k, v) (j, w) d)

  pub get-IsSome_of_key : (k : K) (d : Dict K V) → Memᴰ k (keys d) → (v : V) × (get k d ≡ some v)
  unfolding get
  get-IsSome_of_key k [] m = absurd (Memᴰ-nil m)
  get-IsSome_of_key k ((j, w) ∷ d) m = elim (Bool-cases (k == j)) [
    | inl same ↦ (w, rw same)
    | inr other ↦
        rw other (get-IsSome_of_key k d (ground (arith, Memᴰ-cons k j (keys d), ==_iff k j)))
  ]

  pub key_of_get : (k : K) (v : V) (d : Dict K V) → get k d ≡ some v → Memᴰ k (keys d)
  key_of_get k v d h = Memᴰ.map (λ (p : K × V). p.0) (Memᴰ-of_get k v d h)

  -- Each key once, as in every `dict`.
  abbrev pub IsDict : Dict K V → Type 0
  IsDict [] = Unit {0}
  IsDict ((k, _) ∷ d) = (contains (keys d) k ≡ false) × IsDict d

  pub get-none_of_key : (k : K) (d : Dict K V) → contains (keys d) k ≡ false → get k d ≡ none
  unfolding get contains
  get-none_of_key k [] h = refl
  get-none_of_key k ((j, w) ∷ d) h = ground (arith, get-none_of_key k d)

  pub contains-keys-put :
      (k j : K) (v : V) (d : Dict K V)
      → contains (keys (put k v d)) j ≡ (j == k || contains (keys d) j)
  unfolding put contains
  contains-keys-put k j v [] = refl
  contains-keys-put k j v ((i, w) ∷ d) =
      ground (arith, ==_iff k i, ==_iff j i, ==_iff j k, contains-keys-put k j v d)

  pub IsDict-put : (k : K) (v : V) (d : Dict K V) → IsDict d → IsDict (put k v d)
  unfolding put contains
  IsDict-put k v [] h = (refl, tt)
  IsDict-put k v ((j, w) ∷ d) h = elim (Bool-cases (k == j)) [
    | inl same ↦ rw same h
    | inr other ↦
        rw other
          (ground (arith, contains-keys-put k j v d, ==_iff j k, ==_iff k j), IsDict-put k v d h.1)
  ]

  pub get_or-found : (k : K) (v w : V) (d : Dict K V) → get k d ≡ some w → get_or k v d ≡ w
  unfolding get_or
  get_or-found k v w d h = rw (h, get_or) refl

  pub get_or-put :
      (k j : K) (v w : V) (d : Dict K V)
      → get_or j w (put k v d) ≡ (if j == k then v else get_or j w d)
  unfolding get_or
  get_or-put k j v w d = ground (arith, get-put k j v d)

  pub get_of_Memᴰ : (k : K) (v : V) (d : Dict K V) → IsDict d → Memᴰ (k, v) d → get k d ≡ some v
  unfolding get contains
  get_of_Memᴰ k v [] h m = absurd (Memᴰ-nil m)
  get_of_Memᴰ k v ((j, w) ∷ d) h m = elim ((Memᴰ-cons (k, v) (j, w) d).0 m) [
    | inl now ↦ ground (arith, ==_refl j)
    | inr later ↦
        let there = Memᴰ.map (λ (p : K × V). p.0) later in
        ground (arith, get_of_Memᴰ k v d h.1 later, ==_iff k j, (contains_iff (keys d) k).1 there)
  ]
