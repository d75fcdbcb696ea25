-- ===== src/Findings/Baseline/Partition.antt =====
-- The findings that findings/baseline.py takes as new, and those that an entry accounts for.
use coretrace_python_analyze.Findings.{Finding}
use coretrace_python_analyze.Findings.Baseline.{
  Files, Key, Fingerprint, fingerprint_eq, Baseline, fingerprint, counted, account, partition_by,
  of, key_of, partition,
}
use coretrace_python_analyze.Base.{
  ==_iff, Bool-cases, Dict, Eq, List, Option, Option-cases, [], ap, arith, count, false, get_or,
  get_or-put, inl, inr, list_eq, ltb, map, nat_eq, option_eq, pair_eq, put, refl, some, string_eq,
  suc, true, ℕ, ◌+◌, ◌-◌, ◌<◌, ◌==◌, ◌∷◌, ◌≡◌, ◌⊎◌, min, if◌then◌else◌, sym, All, All-of, contains,
  none, Bool, ◌∙◌, ◌≤◌, get, subst,
}

module _ {K : Type 0} ⦃e : Eq K⦄ where
  pub get_or-counted :
      (entries : Dict K ℕ) (ks : List K) (k : K)
      → get_or k 0 (counted entries ks) ≡ get_or k 0 entries + count k ks
  unfolding counted count
  get_or-counted entries [] k = omega arith
  get_or-counted entries (j ∷ ks) k = elim (Bool-cases (k == j)) [
    | inl same ↦
        let at = (==_iff k j).0 same in
        let h = get_or-counted (put j (suc (get_or j 0 entries)) entries) ks k in
        let g = get_or-put j k (suc (get_or j 0 entries)) 0 entries in
        ground (arith, h, g, ap (λ i. get_or i 0 entries) at)
    | inr other ↦
        let h = get_or-counted (put j (suc (get_or j 0 entries)) entries) ks k in
        let g = get_or-put j k (suc (get_or j 0 entries)) 0 entries in ground (arith, h, g)
  ]

  module _ {A : Type 0} (key_of : A → Option K) where
    -- How many of `xs` have the fingerprint `k`.
    abbrev pub having : K → List A → ℕ
    having k xs = count (some k) (map key_of xs)

    account-cases :
        (x : A) (remaining : Dict K ℕ)
        → ((account (key_of x) remaining ≡ (false, remaining))
            × ((k : K) → key_of x ≡ some k → get_or k 0 remaining ≡ 0))
          ⊎ ((k : K) × (key_of x ≡ some k)
              × (0 < get_or k 0 remaining)
              × (account (key_of x) remaining ≡ (true, put k (get_or k 0 remaining - 1) remaining)))
    unfolding account
    account-cases x remaining = elim (Option-cases (key_of x)) [
      | inl no_key ↦ inl (rw no_key refl, λ k h. absurd (let g = rw no_key at h in cc g))
      | inr (k, has) ↦ elim (Bool-cases (ltb 0 (get_or k 0 remaining))) [
        | inl left ↦ inr (k, has, ground arith, rw (has, left) refl)
        | inr used ↦ inl (
          rw (has, used) refl,
          λ j h. let g : k ≡ j = (let h' = rw has at h in cc h') in rw (← g) (ground arith),
        )
      ]
    ]

    partition_by-new :
        (x : A) (xs : List A) (remaining left : Dict K ℕ)
        → account (key_of x) remaining ≡ (false, left)
        → partition_by key_of remaining (x ∷ xs)
          ≡ (x ∷ (partition_by key_of left xs).0, (partition_by key_of left xs).1)
    unfolding partition_by
    partition_by-new x xs remaining left h = rw h refl

    partition_by-accounted :
        (x : A) (xs : List A) (remaining left : Dict K ℕ)
        → account (key_of x) remaining ≡ (true, left)
        → partition_by key_of remaining (x ∷ xs)
          ≡ ((partition_by key_of left xs).0, x ∷ (partition_by key_of left xs).1)
    unfolding partition_by
    partition_by-accounted x xs remaining left h = rw h refl

    having-cons :
        (k : K) (x : A) (xs : List A)
        → having k (x ∷ xs) ≡ (if some k == key_of x then 1 else 0) + having k xs
    having-cons k x xs = unfold count in refl

    -- Whether the baseline has more entries for a finding's fingerprint than findings came before.
    unfoldable pub is_spare : Dict K ℕ → List A → A → Bool
    is_spare entries earlier x = elim (key_of x) [
      | none ↦ false
      | some k ↦ ltb (having k earlier) (get_or k 0 entries)
    ]

    -- The entries go to those that come first, and the others are new.
    unfoldable pub first_come : Dict K ℕ → List A → List A → List A × List A
    unfolding is_spare
    first_come entries earlier [] = ([], [])
    first_come entries earlier (x ∷ xs) =
        let (new, old) = first_come entries (x ∷ earlier) xs in
        if is_spare entries earlier x then (new, x ∷ old) else (x ∷ new, old)

    partition_by-first_come :
        (entries : Dict K ℕ) (earlier xs : List A) (remaining : Dict K ℕ)
        → ((k : K) → get_or k 0 remaining ≡ get_or k 0 entries - having k earlier)
        → partition_by key_of remaining xs ≡ first_come entries earlier xs
    unfolding first_come
    partition_by-first_come entries earlier [] remaining left = unfold partition_by in refl
    partition_by-first_come entries earlier (x ∷ xs) remaining left =
        elim (account-cases x remaining) [
          | inl (new, unmatched) ↦
              rw (partition_by-new x xs remaining remaining new, none_spare unmatched)
                (ap (λ (p : List A × List A). (x ∷ p.0, p.1))
                  (partition_by-first_come entries (x ∷ earlier) xs remaining
                    (λ k. kept unmatched k (Bool-cases (some k == key_of x)))))
          | inr (j, has, some_left, old) ↦
              rw (partition_by-accounted x xs remaining _ old, one_spare j has some_left)
                (ap (λ (p : List A × List A). (p.0, x ∷ p.1))
                  (partition_by-first_come entries (x ∷ earlier) xs _
                    (λ k. spent j has k (Bool-cases (k == j)))))
        ]
      where
        none_spare :
            ((k : K) → key_of x ≡ some k → get_or k 0 remaining ≡ 0)
            → is_spare entries earlier x ≡ false
        none_spare u = (elim (Option-cases (key_of x)) [
          | inl no_key ↦ rw (no_key, is_spare) refl
          | inr (k, has) ↦ rw (has, is_spare) (let e = u k has in let g = left k in ground arith)
        ])

        one_spare :
            (j : K)
            → key_of x ≡ some j
            → 0 < get_or j 0 remaining
            → is_spare entries earlier x ≡ true
        one_spare j has h = rw (has, is_spare) (let g = left j in ground arith)

        kept :
            ((k : K) → key_of x ≡ some k → get_or k 0 remaining ≡ 0)
            → (k : K) → ((some k == key_of x) ≡ true) ⊎ ((some k == key_of x) ≡ false)
            → get_or k 0 remaining ≡ get_or k 0 entries - having k (x ∷ earlier)
        kept u k (inl same) =
            let e = u k (sym ((==_iff (some k) (key_of x)).0 same)) in
            let g = left k in let c = having-cons k x earlier in ground arith
        kept u k (inr other) = let g = left k in let c = having-cons k x earlier in ground arith

        spent :
            (j : K)
            → key_of x ≡ some j
            → (k : K) → ((k == j) ≡ true) ⊎ ((k == j) ≡ false)
            → get_or k 0 (put j (get_or j 0 remaining - 1) remaining)
              ≡ get_or k 0 entries - having k (x ∷ earlier)
        spent j has k (inl same) =
            let e = (==_iff k j).0 same in
            let s = (==_iff (some k) (key_of x)).1 (ap some e ∙ sym has) in
            let i = ap (λ i. get_or i 0 remaining) e in
            let g = left k in
            let c = having-cons k x earlier in
            ground (arith, get_or-put j k (get_or j 0 remaining - 1) 0 remaining)
        spent j has k (inr other) =
            let s : (some k == key_of x) ≡ false = rw has other in
            let g = left k in
            let c = having-cons k x earlier in
            ground (arith, get_or-put j k (get_or j 0 remaining - 1) 0 remaining)

    pub having-partition_by :
        (k : K) (xs : List A) (remaining : Dict K ℕ)
        → having k (partition_by key_of remaining xs).1 ≡ min (get_or k 0 remaining) (having k xs)
    having-partition_by k [] remaining = unfold partition_by count in ground arith
    having-partition_by k (x ∷ xs) remaining = elim (account-cases x remaining) [
      | inl (new, unmatched) ↦
          rw (partition_by-new x xs remaining remaining new, having-cons k x xs)
            (unmatched_step (having-partition_by k xs remaining) (Bool-cases (some k == key_of x))
              unmatched)
      | inr (j, has, left, old) ↦
          let after = put j (get_or j 0 remaining - 1) remaining in
          let later = (partition_by key_of after xs).1 in
          rw
            (
              partition_by-accounted x xs remaining after old,
              having-cons k x xs,
              having-cons k x later,
              has,
            )
            (matched_step j after later left (having-partition_by k xs after)
              (get_or-put j k (get_or j 0 remaining - 1) 0 remaining) (Bool-cases (k == j)))
    ]
      where
        unmatched_step :
            having k (partition_by key_of remaining xs).1 ≡ min (get_or k 0 remaining) (having k xs)
            → ((some k == key_of x) ≡ true) ⊎ ((some k == key_of x) ≡ false)
            → ((j : K) → key_of x ≡ some j → get_or j 0 remaining ≡ 0)
            → having k (partition_by key_of remaining xs).1
              ≡ min (get_or k 0 remaining) ((if some k == key_of x then 1 else 0) + having k xs)
        unmatched_step h (inl same) u =
            let g = u k (sym ((==_iff (some k) (key_of x)).0 same)) in ground arith
        unmatched_step h (inr other) u = ground arith

        matched_step :
            (j : K) (after : Dict K ℕ) (later : List A)
            → 0 < get_or j 0 remaining
            → having k later ≡ min (get_or k 0 after) (having k xs)
            → get_or k 0 after ≡ (if k == j then get_or j 0 remaining - 1 else get_or k 0 remaining)
            → ((k == j) ≡ true) ⊎ ((k == j) ≡ false)
            → (if some k == some j then 1 else 0) + having k later
              ≡ min (get_or k 0 remaining) ((if some k == some j then 1 else 0) + having k xs)
        matched_step j after later left h g (inl same) =
            let e = ap (λ i. get_or i 0 remaining) ((==_iff k j).0 same) in ground arith
        matched_step j after later left h g (inr other) = ground arith

    having_all :
        (fp : A → K)
        → ((x : A) → key_of x ≡ some (fp x))
        → (k : K) (xs : List A) → having k xs ≡ count k (map fp xs)
    having_all fp has k [] = unfold count in refl
    having_all fp has k (x ∷ xs) =
        rw (having-cons k x xs, has x) (tail_equal (having_all fp has k xs))
      where
        tail_equal :
            having k xs ≡ count k (map fp xs)
            → (if k == fp x then 1 else 0) + having k xs ≡ count k (map fp (x ∷ xs))
        tail_equal h = unfold count in ap (λ n. (if k == fp x then 1 else 0) + n) h

    -- Where each of `xs` has a fingerprint with entries enough, none is new.
    partition_by-none_new :
        (xs : List A) (remaining : Dict K ℕ)
        → All (λ x. (k : K) × (key_of x ≡ some k)) xs
        → ((k : K) → having k xs ≤ get_or k 0 remaining)
        → (partition_by key_of remaining xs).0 ≡ []
    partition_by-none_new [] remaining all enough = unfold partition_by in refl
    partition_by-none_new (x ∷ xs) remaining ((j, has), all) enough =
        elim (account-cases x remaining) [
          | inl (new, unmatched) ↦
              let none_left = unmatched j has in
              let h = enough j in
              let g = having-cons j x xs in
              let same = (==_iff (some j) (key_of x)).1 (sym has) in absurd (ground arith)
          | inr (i, has_i, left, old) ↦
              let after = put i (get_or i 0 remaining - 1) remaining in
              ap (λ (p : List A × List A). p.0) (partition_by-accounted x xs remaining after old)
              ∙ partition_by-none_new xs after all
                  (λ k. fewer i has_i left k (enough k) (Bool-cases (k == i)))
        ]
      where
        fewer :
            (i : K)
            → key_of x ≡ some i
            → 0 < get_or i 0 remaining
            → (k : K) → having k (x ∷ xs) ≤ get_or k 0 remaining
            → ((k == i) ≡ true) ⊎ ((k == i) ≡ false)
            → having k xs ≤ get_or k 0 (put i (get_or i 0 remaining - 1) remaining)
        fewer i has_i left k h (inl same) =
            let e = ap (λ i. get_or i 0 remaining) ((==_iff k i).0 same) in
            let s = (==_iff (some k) (key_of x)).1 (ap some ((==_iff k i).0 same) ∙ sym has_i) in
            ground
              (arith, get_or-put i k (get_or i 0 remaining - 1) 0 remaining, having-cons k x xs)
        fewer i has_i left k h (inr other) =
            ground
              (arith, get_or-put i k (get_or i 0 remaining - 1) 0 remaining, having-cons k x xs)

module _ (files : Files) where
  -- The check splits the findings, in their order, by one test: a finding is baselined exactly
  -- where it has a fingerprint of the baseline's schema for which the baseline has more entries
  -- than findings with that fingerprint came before.
  pub partition-first_come :
      (b : Baseline) (findings : List Finding)
      → partition files b findings ≡ first_come (key_of files b) b.entries [] findings
  partition-first_come b findings =
      unfold partition in
      partition_by-first_come (key_of files b) b.entries [] findings b.entries
        (λ k. unfold count in omega arith)

  -- For each fingerprint the findings that the baseline accounts for are as many as it has entries,
  -- or all that there are if those are fewer.
  pub having-partition :
      (b : Baseline) (findings : List Finding) (k : Fingerprint)
      → having (key_of files b) k (partition files b findings).1
        ≡ min (get_or k 0 b.entries) (having (key_of files b) k findings)
  having-partition b findings k =
      unfold partition in having-partition_by (key_of files b) k findings b.entries

  key_of-of :
      (key : Option Key) (recorded : List Finding) (f : Finding)
      → key_of files (of files key recorded) f ≡ some (fingerprint files key f)
  unfolding key_of of contains
  key_of-of none recorded f = ground arith
  key_of-of (some k) recorded f = ground arith

  -- A baseline of recorded findings, with or without a key, accounts for all the findings of a
  -- check if no fingerprint has become more frequent in them.
  pub partition-of :
      (key : Option Key) (recorded findings : List Finding)
      → ((k : Fingerprint)
          → count k (map (fingerprint files key) findings)
            ≤ count k (map (fingerprint files key) recorded))
      → (partition files (of files key recorded) findings).0 ≡ []
  partition-of key recorded findings no_more =
      unfold partition in
      partition_by-none_new (key_of files (of files key recorded)) findings
        (of files key recorded).entries
        (All-of (λ f. (k : Fingerprint) × (key_of files (of files key recorded) f ≡ some k))
          findings (λ f m. (fingerprint files key f, key_of-of key recorded f)))
        (λ k.
          subst (λ n. n ≤ get_or k 0 (of files key recorded).entries)
            (sym (
              having_all (key_of files (of files key recorded)) (fingerprint files key)
                (key_of-of key recorded) k findings))
            (subst (λ n. count k (map (fingerprint files key) findings) ≤ n) (sym (entries_of k))
              (no_more k)))
    where
      entries_of :
          (k : Fingerprint)
          → get_or k 0 (of files key recorded).entries
            ≡ count k (map (fingerprint files key) recorded)
      entries_of k =
          unfold of in
          get_or-counted [] (map (fingerprint files key) recorded) k
          ∙ (unfold get_or get in omega arith)
