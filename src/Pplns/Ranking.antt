-- ===== src/Pplns/Ranking.antt =====
-- The two rankings of src/pplns.c: `rank_desc` sorts them, and their loops take claims from the
-- front of one and then from the other.
use simplepool.Prelude.{
  ℕ, zero, suc, ◌+◌, ◌-◌, ◌≤◌, ◌<◌, ◌≡◌, refl, sym, ap, subst, ◌∙◌, inl, inr, Bool, true, false,
  List, [], ◌∷◌, ◌++◌, map, arith, ltb, ◌==◌, if◌then◌else◌, not, length, length-append,
  append_assoc, length-set, get_or, get_or-append_right, set, take, All, Bool-cases,
}
use simplepool.Prelude.Int.{pos, ltb_ℤ}
use simplepool.Double.{DoubleOps}
use simplepool.Pplns.{
  Claim, Rank, rank_desc, insert_rank, sort_ranks, rank_from, place_owed, place_rest,
}
use simplepool.Pplns.Marks.{count_idx, count_idx-sort, count_idx-rank_from, Within, bit-set}

-- The members of a list that pass a test.
abbrev pub keep : (ℕ → Bool) → List ℕ → List ℕ
keep test [] = []
keep test (i ∷ is) = if test i then i ∷ keep test is else keep test is

pub keep-same : (f g : ℕ → Bool) (is : List ℕ) → ((i : ℕ) → f i ≡ g i) → keep f is ≡ keep g is
keep-same f g [] same = refl
keep-same f g (i ∷ is) same = rw (same i, keep-same f g is same) refl

module _ (fl : DoubleOps) where
  open fl use {of_ℤ, lt, le}

  -- The larger key first, and of two that do not differ the smaller index.
  abbrev pub Before : Rank fl → Rank fl → Type 0
  Before r s = (lt r.key s.key ≡ false) × (lt s.key r.key ≡ false → r.idx ≤ s.idx)

  abbrev pub BeforeHead : Rank fl → List (Rank fl) → Type 0
  BeforeHead r [] = Unit {0}
  BeforeHead r (s ∷ rs) = Before r s

  abbrev pub Descending : List (Rank fl) → Type 0
  Descending [] = Unit {0}
  Descending (r ∷ rs) = BeforeHead r rs × Descending rs

  -- Ranks that carry the key of the claim that they name.
  unfoldable pub KeysOf : List fl.Double → List (Rank fl) → Type 0
  KeysOf keys rs = All (λ r. r.key ≡ get_or keys r.idx (of_ℤ (pos 0))) rs

  -- All claims by one of their numbers: each claim once, with its number, the largest first.
  pub record IsRanking (key : Claim fl → fl.Double) (claims : List (Claim fl)) (rs : List (Rank fl))
      : Type 0 where
    pub once : (i : ℕ) → count_idx fl i rs ≡ (if ltb i (length claims) then 1 else 0)
    pub keyed : All (λ r. r.key ≡ get_or (map key claims) r.idx (of_ℤ (pos 0))) rs
    pub descending : Descending rs

  insert-KeysOf :
      (keys : List fl.Double) (r : Rank fl) (rs : List (Rank fl))
      → r.key ≡ get_or keys r.idx (of_ℤ (pos 0))
      → KeysOf keys rs
      → KeysOf keys (insert_rank fl r rs)
  unfolding insert_rank KeysOf
  insert-KeysOf keys r [] h w = (h, tt)
  insert-KeysOf keys r (s ∷ rs) h w = elim (Bool-cases (ltb_ℤ (pos 0) (rank_desc fl r s))) [
    | inl later ↦ rw later (w.0, insert-KeysOf keys r rs h w.1)
    | inr first ↦ rw first (h, w)
  ]

  sort-KeysOf :
      (keys : List fl.Double) (rs : List (Rank fl))
      → KeysOf keys rs
      → KeysOf keys (sort_ranks fl rs)
  unfolding sort_ranks KeysOf
  sort-KeysOf keys [] w = tt
  sort-KeysOf keys (r ∷ rs) w =
      insert-KeysOf keys r (sort_ranks fl rs) w.0 (sort-KeysOf keys rs w.1)

  rank_from-KeysOf :
      (key : Claim fl → fl.Double) (seen : List fl.Double) (cs : List (Claim fl)) (i : ℕ)
      → i ≡ length seen
      → KeysOf (seen ++ map key cs) (rank_from fl key i cs)
  unfolding rank_from KeysOf
  rank_from-KeysOf key seen [] i e = tt
  rank_from-KeysOf key seen (c ∷ cs) i e = (
    sym (
        ap (λ k. get_or (seen ++ map key (c ∷ cs)) k (of_ℤ (pos 0))) at_end
        ∙ get_or-append_right seen (map key (c ∷ cs)) 0 (of_ℤ (pos 0))),
    subst (λ l. KeysOf l (rank_from fl key (i + 1) cs))
        (append_assoc seen (key c ∷ []) (map key cs))
        (rank_from-KeysOf key (seen ++ (key c ∷ [])) cs (i + 1)
          (omega (arith, length-append seen (key c ∷ [])))),
  )
    where
      at_end : i ≡ length seen + 0
      at_end = omega arith

  module _ (asym : (x y : fl.Double) → lt x y ≡ true → lt y x ≡ false) where
    rank_desc-later : (r s : Rank fl) → ltb_ℤ (pos 0) (rank_desc fl r s) ≡ true → Before s r
    unfolding rank_desc ltb_ℤ
    rank_desc-later r s h = elim (Bool-cases (lt r.key s.key)) [
      | inl less ↦ (asym r.key s.key less, λ more. absurd (ground arith))
      | inr more ↦ elim (Bool-cases (lt s.key r.key)) [
        | inl back ↦ absurd (ground arith)
        | inr level ↦ (level, λ _. ground arith)
      ]
    ]

    rank_desc-first : (r s : Rank fl) → ltb_ℤ (pos 0) (rank_desc fl r s) ≡ false → Before r s
    unfolding rank_desc ltb_ℤ
    rank_desc-first r s h = elim (Bool-cases (lt r.key s.key)) [
      | inl less ↦ absurd (ground arith)
      | inr more ↦ (more, λ level. ground arith)
    ]

    insert-BeforeHead :
        (r s : Rank fl) (rs : List (Rank fl))
        → Before s r
        → BeforeHead s rs
        → BeforeHead s (insert_rank fl r rs)
    unfolding insert_rank
    insert-BeforeHead r s [] h w = h
    insert-BeforeHead r s (t ∷ rs) h w = elim (Bool-cases (ltb_ℤ (pos 0) (rank_desc fl r t))) [
      | inl later ↦ rw later w
      | inr first ↦ rw first h
    ]

    insert-Descending :
        (r : Rank fl) (rs : List (Rank fl)) → Descending rs → Descending (insert_rank fl r rs)
    unfolding insert_rank
    insert-Descending r [] w = (tt, tt)
    insert-Descending r (s ∷ rs) w = elim (Bool-cases (ltb_ℤ (pos 0) (rank_desc fl r s))) [
      | inl later ↦
          rw later
            (insert-BeforeHead r s rs (rank_desc-later r s later) w.0, insert-Descending r rs w.1)
      | inr first ↦ rw first (rank_desc-first r s first, w)
    ]

    sort-Descending : (rs : List (Rank fl)) → Descending (sort_ranks fl rs)
    unfolding sort_ranks
    sort-Descending [] = tt
    sort-Descending (r ∷ rs) = insert-Descending r (sort_ranks fl rs) (sort-Descending rs)

    pub sort-IsRanking :
        (key : Claim fl → fl.Double) (claims : List (Claim fl))
        → IsRanking key claims (sort_ranks fl (rank_from fl key 0 claims))
    unfolding KeysOf
    sort-IsRanking key claims = record {
      once = λ i. ground (
        arith,
        count_idx-sort fl i (rank_from fl key 0 claims),
        count_idx-rank_from fl key claims 0 i,
      );
      keyed = sort-KeysOf _ _ (rank_from-KeysOf key [] claims 0 refl);
      descending = sort-Descending _;
    }

  abbrev pub indices : List (Rank fl) → List ℕ
  indices rs = map (λ (r : Rank fl). r.idx) rs

  -- The claims of a ranking before the first whose key is not above zero.
  abbrev pub owing : List (Rank fl) → List ℕ
  owing [] = []
  owing (r ∷ rs) = if le r.key (of_ℤ (pos 0)) then [] else r.idx ∷ owing rs

  -- The reserved slots go to the first of them that may be paid.
  pub place_owed-owing :
      (payable : ℕ → Bool) (rs : List (Rank fl)) (room : ℕ) (placed : List Bool)
      → (place_owed fl payable rs room placed).0 ≡ take room (keep payable (owing rs))
  unfolding place_owed
  place_owed-owing payable [] zero placed = refl
  place_owed-owing payable [] (suc room) placed = refl
  place_owed-owing payable (r ∷ rs) zero placed = refl
  place_owed-owing payable (r ∷ rs) (suc room) placed =
      let more : (suc room == 0) ≡ false = ground arith in
      let left : suc room - 1 ≡ room = omega arith in
      elim (Bool-cases (le r.key (of_ℤ (pos 0)))) [
        | inl settled ↦ rw (more, settled) refl
        | inr waits ↦ elim (Bool-cases (payable r.idx)) [
          | inl good ↦
              rw (more, waits, good, left)
                (ap (◌∷◌ r.idx) (place_owed-owing payable rs room (set placed r.idx true)))
          | inr bad ↦ rw (more, waits, bad) (place_owed-owing payable rs (suc room) placed)
        ]
      ]

  -- A mark on a claim that is not among the ranks changes nothing of them.
  keep-set :
      (rs : List (Rank fl)) (placed : List Bool) (j : ℕ)
      → j < length placed
      → get_or placed j false ≡ false
      → count_idx fl j rs ≡ 0
      → keep (λ i. not (get_or (set placed j true) i false)) (indices rs)
        ≡ keep (λ i. not (get_or placed i false)) (indices rs)
  unfolding count_idx
  keep-set [] placed j h e c = refl
  keep-set (r ∷ rs) placed j h e c =
      let other : get_or (set placed j true) r.idx false ≡ get_or placed r.idx false =
        ground (arith, bit-set placed r.idx j h e) in
      rw (other, keep-set rs placed j h e (omega arith)) refl

  -- Then the others take theirs.
  pub place_rest-others :
      (rs : List (Rank fl)) (placed : List Bool)
      → Within fl (length placed) rs
      → ((i : ℕ) → count_idx fl i rs ≤ 1)
      → (place_rest fl rs placed).0 ≡ keep (λ i. not (get_or placed i false)) (indices rs)
  unfolding place_rest Within count_idx
  place_rest-others [] placed w free = refl
  place_rest-others (r ∷ rs) placed w free = elim (Bool-cases (get_or placed r.idx false)) [
    | inl old ↦ rw old (place_rest-others rs placed w.1 (λ i. omega (arith, free i)))
    | inr new ↦ rw new (
        ap (◌∷◌ r.idx) (
          place_rest-others rs (set placed r.idx true) (rw (length-set placed r.idx true) w.1)
            (λ i. omega (arith, free i))
          ∙ keep-set rs placed r.idx w.0 new (ground (arith, free r.idx))))
  ]
