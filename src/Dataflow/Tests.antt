-- ===== src/Dataflow/Tests.antt =====
-- The solver and the lattice at concrete inputs.
use coretrace_python_analyze.Cfg.{BlockId}
use coretrace_python_analyze.Dataflow.Lattice.{Values, Element, known, join, leq, join_least_upper}
use coretrace_python_analyze.Dataflow.Solver.{
  Incoming, Problem, Graph, Solving, forward, solve, state, starts, run, begin, entry_key, index,
  pop_first, unchanged, enqueue, send, send_all, process,
}
use coretrace_python_analyze.Dataflow.Solver.Stable.{IsLawful, IsStable}
use coretrace_python_analyze.Dataflow.Solver.Fixpoint.{solve-IsStable}
use coretrace_python_analyze.Dataflow.Solver.Sound.{
  Steps, IsSound, IsNamed, Enters, enter, go, solve_sound,
}
use coretrace_python_analyze.Dataflow.Solver.Ascending.{IsAscending}
use coretrace_python_analyze.Dataflow.Solver.Terminates.{solve_returns}
use coretrace_python_analyze.Base.{
  Bool, Bool-cases, IsDict, [], add, arith, contains, eqb, false, get, get_or, if◌then◌else◌, inl,
  inr, keys, list_eq, nat_eq, not, option_eq, pair_eq, put, refl, remove, some, string_eq, true, ℕ,
  ◌<◌, ◌==◌, ◌||◌, ◌∷◌, ◌≡◌, ◌≤◌, ◌⊎◌, ==_iff, sym, ◌∙◌,
}

-- Whether a flag may be set: the block "a" sets it and goes to "b", which goes back.
abbrev flag_flow : BlockId → Incoming Bool → Incoming Bool
flag_flow b m = if b == "a" then ("b", true) ∷ [] else if b == "b" then ("a", true) ∷ [] else []

abbrev flag_same : Bool → Bool → Bool
flag_same a b = if a then b else not b

abbrev flag : Problem Bool
flag = record {
  direction = forward;
  initial = false;
  join = λ a b. a || b;
  flow = flag_flow;
  same = flag_same;
}

abbrev loop : Graph
loop = record { blocks = "a" ∷ "b" ∷ []; entry = "a"; exits = [] }

abbrev flagged : Solving Bool
flagged = record {
  incoming = ("a", (entry_key, false) ∷ ("b", true) ∷ []) ∷ ("b", ("a", true) ∷ []) ∷ [];
  worklist = [];
  queued = [];
}

flag_solved : solve flag 8 loop ≡ some flagged
unfolding solve run begin starts process send_all send pop_first index unchanged enqueue get get_or
    put contains add remove
flag_solved = refl

flag_same_refl : (a : Bool) → flag_same a a ≡ true
flag_same_refl true = refl
flag_same_refl false = refl

-- What holds of the three mappings that the transfer sends.
flag_flow-cases :
    (P : Incoming Bool → Type 0)
    → P (("b", true) ∷ [])
    → P (("a", true) ∷ [])
    → P []
    → (b : BlockId) (m : Incoming Bool) → P (flag_flow b m)
flag_flow-cases P at_a at_b other b m = elim (Bool-cases (b == "a")) [
  | inl e ↦ rw e at_a
  | inr n ↦ rw n (elim (Bool-cases (b == "b")) [ inl e ↦ rw e at_b | inr n ↦ rw n other ])
]

flag-IsLawful : IsLawful flag
unfolding contains
flag-IsLawful = record {
  same_refl = flag_same_refl;
  flow-IsDict = flag_flow-cases (λ o. IsDict o) (refl, tt) (refl, tt) tt;
}

flag-IsNamed : IsNamed flag loop
unfolding contains starts
flag-IsNamed = record {
  starts_named = refl;
  flow_named = flag_flow-cases (λ o. contains (keys o) entry_key ≡ false) refl refl refl;
}

-- A flag that is set is seen as set.
abbrev Sees : Bool → Bool → Type 0
Sees a c = c ≡ true → a ≡ true

abbrev flag_steps : Steps Bool
flag_steps = record { Next = λ b c t c'. ((b ≡ "a") × (t ≡ "b")) ⊎ ((b ≡ "b") × (t ≡ "a")) }

flag_sound : IsSound flag flag_steps Sees
unfolding get
flag_sound = record {
  transfer = λ b t source m a c c' there sees next. sent b t m c' next;
  same = same_sees;
  join_left = λ a a' c h e. rw (h e) refl;
  join_right = λ a a' c h e. or_true a (h e);
}
  where
    sent :
        (b t : BlockId) (m : Incoming Bool) (c' : Bool)
        → ((b ≡ "a") × (t ≡ "b")) ⊎ ((b ≡ "b") × (t ≡ "a"))
        → (a' : Bool) × (get t (flag_flow b m) ≡ some a') × Sees a' c'
    sent b t m c' (inl (e, g)) = rw (e, g) (true, refl, λ h. refl)
    sent b t m c' (inr (e, g)) = rw (e, g) (true, refl, λ h. refl)

    same_sees : (a a' c : Bool) → flag_same a a' ≡ true → Sees a' c → Sees a c
    same_sees true a' c s h e = refl
    same_sees false true c s h e = cc s
    same_sees false false c s h e = h e

    or_true : (a : Bool) {b : Bool} → b ≡ true → (a || b) ≡ true
    or_true true e = refl
    or_true false e = e

flag-IsAscending : IsAscending flag ("a" ∷ "b" ∷ []) (λ a b. Sees b a) (λ a. if a then 1 else 0) 1
unfolding contains get
flag-IsAscending = record {
  below_refl = λ a h. h;
  below_trans = λ a b c h g e. g (h e);
  height-le = at_most;
  rises = rising;
  flow_monotone = λ b m m' h k a there. (a, same_map b m m' k there, λ e. e);
  flow_known = λ b t m.
      flag_flow-cases (λ o. contains (keys o) t ≡ true → contains ("a" ∷ "b" ∷ []) t ≡ true)
        (λ h. ground arith) (λ h. ground arith) (λ h. cc h) b m;
  entry_apart = refl;
}
  where
    at_most : (a : Bool) → (if a then 1 else 0) ≤ 1
    at_most true = omega arith
    at_most false = omega arith

    rising :
        (a b : Bool)
        → Sees b a
        → flag_same a b ≡ false
        → (if a then 1 else 0) < (if b then 1 else 0)
    rising true true h s = cc s
    rising true false h s = absurd (let e = h refl in cc e)
    rising false true h s = omega arith
    rising false false h s = cc s

    same_map :
        (b : BlockId) (m m' : Incoming Bool) (k : BlockId) {a : Bool}
        → get k (flag_flow b m) ≡ some a
        → get k (flag_flow b m') ≡ some a
    same_map b m m' k h = h

solve-IsStable_example : IsStable flag flagged.incoming "b"
solve-IsStable_example = solve-IsStable flag flag-IsLawful loop 8 flag_solved "b"

solve_returns_example : (s : Solving Bool) × (solve flag 17 loop ≡ some s)
solve_returns_example =
    solve_returns flag flag-IsLawful ("a" ∷ "b" ∷ []) (λ a b. Sees b a) (λ a. if a then 1 else 0) 1
      flag-IsAscending loop 17 (λ c h. unfold starts contains in ground arith)
      (unfold starts in omega arith)

-- A run that goes round once comes back to "a" with the flag set.
once_round : Enters flag loop flag_steps Sees "a" true
once_round =
    go "b" "a" true true
      (go "a" "b" false true (enter "a" false (unfold starts contains in refl) (λ h. cc h))
        (inl (refl, refl)))
      (inr (refl, refl))

solve_sound_example : (a : Bool) × (state flag flagged "a" ≡ some a) × Sees a true
solve_sound_example =
    solve_sound flag flag-IsLawful loop flag-IsNamed flag_steps Sees flag_sound 8 flagged
      flag_solved "a" true once_round

-- The numbers, as constants of one type.
abbrev numbers : Values ℕ
numbers = record {
  kind = λ _. "int";
  equals = eqb;
  equals_refl = λ a. (==_iff a a).1 refl;
  equals_sym = λ a b _ h. (==_iff b a).1 (sym ((==_iff a b).0 h));
  equals_trans = λ a b c _ _ h g. (==_iff a c).1 ((==_iff a b).0 h ∙ (==_iff b c).0 g);
}

join_least_upper_example :
    (leq numbers (known 3) (join numbers (known 3) (known 4)) ≡ true)
    × (leq numbers (known 4) (join numbers (known 3) (known 4)) ≡ true)
    × ((c : Element ℕ)
        → leq numbers (known 3) c ≡ true
        → leq numbers (known 4) c ≡ true
        → leq numbers (join numbers (known 3) (known 4)) c ≡ true)
join_least_upper_example = join_least_upper numbers (known 3) (known 4)
