-- ===== src/Abstract/Constants/Blocks/States.antt =====
-- The joined states of abstract/constants.py, against the values that a run holds.
use coretrace_python_analyze.Abstract.Value.{Python, AbstractValue, unknown}
use coretrace_python_analyze.Abstract.Value
use coretrace_python_analyze.Abstract.Constants.{
  State, Operators, join_states, join_edges, phi_value,
}
use coretrace_python_analyze.Abstract.Constants.Sound.{Admits, Admits-join}
use coretrace_python_analyze.Cfg.{BlockId}
use coretrace_python_analyze.Ir
use coretrace_python_analyze.Base.{
  ==_iff, Bool-cases, [], ap, get, get-put, inl, inr, list_eq, nat_eq, none, option_eq, pair_eq,
  put, refl, some, string_eq, sym, ◌==◌, ◌∙◌, ◌∷◌, ◌≡◌, ◌≢◌, Dict, List, Memᴰ, Memᴰ-nil, Option,
  Option-cases, get_or, ◌⊎◌, get_or-found,
}

module _ {T : Type 0} (py : Python T) (ops : Operators T) where
  -- The value `x` of `v` is one that the state knows of.
  pub record Covered (state : State T) (v : Ir.Value) (x : T) : Type 0 where
    pub fact : AbstractValue T
    pub there : get v state ≡ some fact
    pub admits : Admits py fact x

  pub Covered-put :
      (state : State T) (w : Ir.Value) (new : AbstractValue T) (v : Ir.Value) (x : T)
      → ((v ≡ w) → Admits py new x)
      → ((v ≢ w) → Covered state v x)
      → Covered (put w new state) v x
  Covered-put state w new v x same other = elim (Bool-cases (v == w)) [
    | inl is_w ↦ record {
      fact = new;
      there = get-put w v new state ∙ rw is_w refl;
      admits = same ((==_iff v w).0 is_w);
    }
    | inr not_w ↦
        let c = other (λ e. let g = (==_iff v w).1 e in cc (g, not_w)) in
        record {
          fact = c.fact;
          there = get-put w v new state ∙ rw not_w c.there;
          admits = c.admits;
        }
  ]

  pub Covered-join_left :
      (b merged : State T) (v : Ir.Value) (x : T)
      → Covered merged v x
      → Covered (join_states py ops merged b) v x
  unfolding join_states
  Covered-join_left [] merged v x c = c
  Covered-join_left ((w, fact) ∷ more) merged v x c = Covered-join_left more _ v x (
      Covered-put merged w (elim (get w merged) [ none ↦ fact | some old ↦ Value.join py old fact ])
        v x (λ e. joined e) (λ e. c))
    where
      joined :
          v ≡ w
          → Admits py (elim (get w merged) [ none ↦ fact | some old ↦ Value.join py old fact ]) x
      joined e =
          let g = ap (λ i. get i merged) (sym e) ∙ c.there in
          rw g (Admits-join py c.fact fact x (inl c.admits))

  Covered-nil : (v : Ir.Value) (x : T) → Covered [] v x → ⊥
  unfolding get
  Covered-nil v x c = cc c.there

  Covered-cons :
      (w : Ir.Value) (fact : AbstractValue T) (more : State T) (v : Ir.Value) (x : T)
      → Covered ((w, fact) ∷ more) v x
      → ((v ≡ w) × Admits py fact x) ⊎ Covered more v x
  unfolding get
  Covered-cons w fact more v x c = elim (Bool-cases (v == w)) [
    | inl same ↦
        let e : fact ≡ c.fact = (let g = rw same at c.there in cc g) in
        inl ((==_iff v w).0 same, rw e c.admits)
    | inr other ↦ inr (record { fact = c.fact; there = rw other at c.there; admits = c.admits })
  ]

  pub Covered-join_right :
      (b merged : State T) (v : Ir.Value) (x : T)
      → Covered b v x
      → Covered (join_states py ops merged b) v x
  unfolding join_states
  Covered-join_right [] merged v x c = absurd (Covered-nil v x c)
  Covered-join_right ((w, fact) ∷ more) merged v x c = elim (Covered-cons w fact more v x c) [
    | inl (same, admits) ↦ Covered-join_left more _ v x (
        Covered-put merged w
          (elim (get w merged) [ none ↦ fact | some old ↦ Value.join py old fact ]) v x
          (λ e. joined admits (get w merged)) (λ other. absurd (other same)))
    | inr later ↦ Covered-join_right more _ v x later
  ]
    where
      joined :
          Admits py fact x
          → (old : Option (AbstractValue T))
          → Admits py (elim old [ none ↦ fact | some old ↦ Value.join py old fact ]) x
      joined a none = a
      joined a (some old) = Admits-join py old fact x (inr a)

  -- A value that the state of one edge covers is covered by the states' join.
  pub Covered-join_edges :
      (more : List (State T)) (first state : State T) (v : Ir.Value) (x : T)
      → (state ≡ first) ⊎ Memᴰ state more
      → Covered state v x
      → Covered (join_edges py ops first more) v x
  unfolding join_edges
  Covered-join_edges [] first state v x (inl e) c = rw (← e) c
  Covered-join_edges [] first state v x (inr m) c = absurd (Memᴰ-nil m)
  Covered-join_edges (other ∷ more) first state v x (inl e) c =
      Covered-join_edges more _ (join_states py ops first other) v x (inl refl)
        (Covered-join_left other first v x (rw (← e) c))
  Covered-join_edges (other ∷ more) first state v x (inr (Memᴰ.head e)) c =
      Covered-join_edges more _ (join_states py ops first other) v x (inl refl)
        (Covered-join_right other first v x (rw (← e) c))
  Covered-join_edges (other ∷ more) first state v x (inr (Memᴰ.tail m)) c =
      Covered-join_edges more _ state v x (inr m) c

  Admits-phi_kept :
      (incoming : Dict BlockId (State T)) (values : List (Ir.Value × BlockId))
      (result : AbstractValue T) (x : T)
      → Admits py result x
      → Admits py (phi_value py ops incoming result values) x
  unfolding phi_value
  Admits-phi_kept incoming [] result x a = a
  Admits-phi_kept incoming ((v, predecessor) ∷ more) result x a =
      elim (Option-cases (get predecessor incoming)) [
        | inl absent ↦ rw (absent, phi_value) (Admits-phi_kept incoming more result x a)
        | inr (state, there) ↦
            rw (there, phi_value)
              (Admits-phi_kept incoming more _ x
                (Admits-join py result (get_or v (unknown none) state) x (inl a)))
      ]

  -- A phi admits the value that it has on an edge that runs.
  pub Admits-phi_value :
      (incoming : Dict BlockId (State T)) (source : BlockId) (state : State T)
      → get source incoming ≡ some state
      → (values : List (Ir.Value × BlockId)) (result : AbstractValue T) (v : Ir.Value) (x : T)
      → Memᴰ (v, source) values
      → Covered state v x
      → Admits py (phi_value py ops incoming result values) x
  unfolding phi_value
  Admits-phi_value incoming source state there [] result v x m c = absurd (Memᴰ-nil m)
  Admits-phi_value incoming source state there ((w, predecessor) ∷ more) result v x (Memᴰ.head e)
        c =
      let from = ap (λ (p : Ir.Value × BlockId). p.1) e in
      let value = ap (λ (p : Ir.Value × BlockId). p.0) e in
      let found : get predecessor incoming ≡ some state =
        ap (λ b. get b incoming) (sym from) ∙ there in
      let fact : get_or w (unknown none) state ≡ c.fact =
        get_or-found w (unknown none) c.fact state (ap (λ i. get i state) (sym value) ∙ c.there) in
      rw (found, phi_value)
        (Admits-phi_kept incoming more _ x
          (Admits-join py result (get_or w (unknown none) state) x (inr (rw fact c.admits))))
  Admits-phi_value incoming source state there ((w, predecessor) ∷ more) result v x (Memᴰ.tail m)
        c =
      elim (Option-cases (get predecessor incoming)) [
        | inl absent ↦
            rw (absent, phi_value)
              (Admits-phi_value incoming source state there more result v x m c)
        | inr (other, found) ↦
            rw (found, phi_value) (Admits-phi_value incoming source state there more _ v x m c)
      ]
