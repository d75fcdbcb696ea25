-- ===== src/Base/Worklist.antt =====
-- The loop `x = pending.pop(); if x not in seen: seen.add(x); pending.extend(next(x))`.
use Prim.Native.Nat.{ℕ, zero, suc, ◌+◌, ◌≤◌}
use mathlib.Core.Path.{◌≡◌, refl}
use mathlib.Core.Logic.{◌↔◌, ◌⊎◌, inl, inr, ⊎_elim}
use mathlib.Core.Bool.{true, false}
use mathlib.Core.Option.{Option, none, some}
use mathlib.Core.List.{List, [], ◌∷◌, ◌++◌, reverse, Memᴰ}
use mathlib.Core.List.Memᴰ
use native.Mathlib.Omega.{arith}
use coretrace_python_analyze.Base.Tests.{Bool-cases, if◌then◌else◌}
use coretrace_python_analyze.Base.Lists.{
  length, length-append, length-reverse, Memᴰ-nil, Memᴰ-cons, Memᴰ-append, Memᴰ-reverse,
}
use coretrace_python_analyze.Base.Equality.{Eq, ==_iff, contains, contains_iff}

-- What a chain of `next` leads to from `starts`.
pub data Reaches {ℓ} {A : Type ℓ} (next : A → List A) (starts : List A) : A → Type ℓ where
  here : {a : A} → Memᴰ a starts → Reaches next starts a
  step : {a b : A} → Reaches next starts a → Memᴰ b (next a) → Reaches next starts b

module _ {ℓ} {A : Type ℓ} ⦃e : Eq A⦄ (next : A → List A) where
  -- `pending` has the end of Python's list first; `none` means that the fuel ran out.
  unfoldable pub close : ℕ → List A → List A → Option (List A)
  unfolding contains
  close zero seen [] = some seen
  close zero seen (_ ∷ _) = none
  close (suc fuel) seen [] = some seen
  close (suc fuel) seen (x ∷ pending) =
      let skip = close fuel seen pending in
      let expand = close fuel (x ∷ seen) (reverse (next x) ++ pending) in
      if contains seen x then skip else expand

  -- The edges out of the nodes of `nodes` that are not seen yet.
  abbrev pub unseen_edges : List A → List A → ℕ
  unseen_edges [] seen = 0
  unseen_edges (x ∷ nodes) seen =
      (if contains seen x then 0 else length (next x)) + unseen_edges nodes seen

  -- The rounds that the loop may take: one for each item that is ever pending.
  abbrev pub rounds : List A → List A → List A → ℕ
  rounds nodes seen pending = length pending + unseen_edges nodes seen

  unseen_edges-cons_le :
      (nodes seen : List A) (x : A) → unseen_edges nodes (x ∷ seen) ≤ unseen_edges nodes seen
  unfolding contains
  unseen_edges-cons_le [] seen x = omega arith
  unseen_edges-cons_le (y ∷ nodes) seen x = ground (arith, unseen_edges-cons_le nodes seen x)

  pub unseen_edges-cons :
      (nodes seen : List A) (x : A)
      → Memᴰ x nodes
      → contains seen x ≡ false
      → length (next x) + unseen_edges nodes (x ∷ seen) ≤ unseen_edges nodes seen
  unfolding contains
  unseen_edges-cons [] seen x m h = absurd (Memᴰ-nil m)
  unseen_edges-cons (y ∷ nodes) seen x (Memᴰ.head p) h =
      ground (arith, ==_iff y x, unseen_edges-cons_le nodes seen x)
  unseen_edges-cons (y ∷ nodes) seen x (Memᴰ.tail m) h =
      ground (arith, unseen_edges-cons nodes seen x m h)

  module _ (nodes : List A)
      (closed : (a b : A) → Memᴰ a nodes → Memᴰ b (next a) → Memᴰ b nodes) where
    close_total :
        (fuel : ℕ) (seen pending : List A)
        → ((a : A) → Memᴰ a pending → Memᴰ a nodes)
        → rounds nodes seen pending ≤ fuel
        → (found : List A) × (close fuel seen pending ≡ some found)
    unfolding close
    close_total zero seen [] known h = (seen, refl)
    close_total zero seen (x ∷ pending) known h = absurd (omega arith)
    close_total (suc fuel) seen [] known h = (seen, refl)
    close_total (suc fuel) seen (x ∷ pending) known h = elim (Bool-cases (contains seen x)) [
      | inl old ↦
          rw old (close_total fuel seen pending (λ a m. known a (Memᴰ.tail m)) (omega arith))
      | inr new ↦ rw new (
          close_total fuel (x ∷ seen) (reverse (next x) ++ pending)
            (λ a m.
              ⊎_elim (λ q. closed x a (known x (Memᴰ.head refl)) ((Memᴰ-reverse a (next x)).0 q))
                (λ q. known a (Memᴰ.tail q)) ((Memᴰ-append a (reverse (next x)) pending).0 m))
            (omega (
              arith,
              unseen_edges-cons nodes seen x (known x (Memᴰ.head refl)) new,
              length-append (reverse (next x)) pending,
              length-reverse (next x),
            )))
    ]

  module _ (starts : List A) where
    record Inv (seen pending : List A) : Type ℓ where
      seen_reached : (a : A) → Memᴰ a seen → Reaches next starts a
      pending_reached : (a : A) → Memᴰ a pending → Reaches next starts a
      started : (a : A) → Memᴰ a starts → Memᴰ a seen ⊎ Memᴰ a pending
      edges_followed : (a b : A) → Memᴰ a seen → Memᴰ b (next a) → Memᴰ b seen ⊎ Memᴰ b pending

    Inv-skip :
        {seen pending : List A} {x : A} → Memᴰ x seen → Inv seen (x ∷ pending) → Inv seen pending
    Inv-skip {seen} {pending} {x} m h = record {
      seen_reached = h.seen_reached;
      pending_reached = λ a q. h.pending_reached a (Memᴰ.tail q);
      started = λ a q. drop_head a (h.started a q);
      edges_followed = λ a b q r. drop_head b (h.edges_followed a b q r);
    }
      where
        drop_head : (a : A) → Memᴰ a seen ⊎ Memᴰ a (x ∷ pending) → Memᴰ a seen ⊎ Memᴰ a pending
        drop_head a (inl q) = inl q
        drop_head a (inr q) = ⊎_elim (λ p. inl (Memᴰ.cast p m)) inr ((Memᴰ-cons a x pending).0 q)

    Inv-expand :
        {seen pending : List A} {x : A}
        → Inv seen (x ∷ pending)
        → Inv (x ∷ seen) (reverse (next x) ++ pending)
    Inv-expand {seen} {pending} {x} h = record {
      seen_reached =
          λ a q. ⊎_elim (λ p. Reaches-cast p) (h.seen_reached a) ((Memᴰ-cons a x seen).0 q);
      pending_reached = λ a q.
          ⊎_elim (λ r. step (h.pending_reached x (Memᴰ.head refl)) ((Memᴰ-reverse a (next x)).0 r))
            (λ r. h.pending_reached a (Memᴰ.tail r))
            ((Memᴰ-append a (reverse (next x)) pending).0 q);
      started = λ a q. move a (h.started a q);
      edges_followed = λ a b q r.
          ⊎_elim
            (λ p. inr (
              (Memᴰ-append b (reverse (next x)) pending).1
                (inl ((Memᴰ-reverse b (next x)).1 (follow p r)))))
            (λ s. move b (h.edges_followed a b s r)) ((Memᴰ-cons a x seen).0 q);
    }
      where
        Reaches-cast : {a : A} → a ≡ x → Reaches next starts a
        Reaches-cast p = rw p (h.pending_reached x (Memᴰ.head refl))

        follow : {a b : A} → a ≡ x → Memᴰ b (next a) → Memᴰ b (next x)
        follow p r = rw p at r

        move :
            (a : A)
            → Memᴰ a seen ⊎ Memᴰ a (x ∷ pending)
            → Memᴰ a (x ∷ seen) ⊎ Memᴰ a (reverse (next x) ++ pending)
        move a (inl q) = inl (Memᴰ.tail q)
        move a (inr q) =
            ⊎_elim (λ p. inl (Memᴰ.head p))
              (λ r. inr ((Memᴰ-append a (reverse (next x)) pending).1 (inr r)))
              ((Memᴰ-cons a x pending).0 q)

    close-Inv :
        (fuel : ℕ) (seen pending : List A) {found : List A}
        → Inv seen pending
        → close fuel seen pending ≡ some found
        → Inv found []
    unfolding close
    close-Inv zero seen [] h r = let p : seen ≡ _ = ground arith in rw p at h
    close-Inv zero seen (x ∷ pending) h r = cc
    close-Inv (suc fuel) seen [] h r = let p : seen ≡ _ = ground arith in rw p at h
    close-Inv (suc fuel) seen (x ∷ pending) h r = elim (Bool-cases (contains seen x)) [
      | inl old ↦
          close-Inv fuel seen pending (Inv-skip ((contains_iff seen x).0 old) h) (rw old at r)
      | inr new ↦
          close-Inv fuel (x ∷ seen) (reverse (next x) ++ pending) (Inv-expand h) (rw new at r)
    ]

    complete : {found : List A} → Inv found [] → {a : A} → Reaches next starts a → Memᴰ a found
    complete h (here m) = ⊎_elim (λ q. q) (λ q. absurd (Memᴰ-nil q)) (h.started _ m)
    complete h (step {a} {b} r m) =
        ⊎_elim (λ q. q) (λ q. absurd (Memᴰ-nil q)) (h.edges_followed a b (complete h r) m)

    pub close_correct :
        (fuel : ℕ) (found : List A)
        → close fuel [] (reverse starts) ≡ some found
        → (a : A) → (contains found a ≡ true) ↔ Reaches next starts a
    close_correct fuel found r a =
        let inv = close-Inv fuel [] (reverse starts) start r in
        (
          λ m. inv.seen_reached a ((contains_iff found a).0 m),
          λ p. (contains_iff found a).1 (complete inv p),
        )
      where
        start : Inv [] (reverse starts)
        start = record {
          seen_reached = λ b m. absurd (Memᴰ-nil m);
          pending_reached = λ b m. here ((Memᴰ-reverse b starts).0 m);
          started = λ b m. inr ((Memᴰ-reverse b starts).1 m);
          edges_followed = λ b c m. absurd (Memᴰ-nil m);
        }

  -- The loop from `starts`, with the fuel that `nodes` asks for.
  unfoldable pub closure : List A → List A → Option (List A)
  unfolding close
  closure nodes starts = close (length starts + unseen_edges nodes []) [] (reverse starts)

  -- Where `nodes` holds the starts and all that they lead to, the loop ends, with what is reached.
  pub closure_decides :
      (nodes starts : List A)
      → ((a b : A) → Memᴰ a nodes → Memᴰ b (next a) → Memᴰ b nodes)
      → ((a : A) → Memᴰ a starts → Memᴰ a nodes)
      → (found : List A) × (closure nodes starts ≡ some found)
        × ((a : A) → (contains found a ≡ true) ↔ Reaches next starts a)
  unfolding closure
  closure_decides nodes starts closed known =
      let fuel = length starts + unseen_edges nodes [] in
      let (found, ends) =
        close_total nodes closed fuel [] (reverse starts)
          (λ a m. known a ((Memᴰ-reverse a starts).0 m)) (omega (arith, length-reverse starts)) in
      (found, ends, close_correct starts fuel found ends)
