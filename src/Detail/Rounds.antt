-- ===== src/Detail/Rounds.antt =====
-- An invariant of the effect of web/src/features/gpu/GPUDetail.tsx, for any three facts that hold of
-- the answers to the requests of a run.
use mathlib.Core.Path.{subst}
use card_scope.Base.{
  ℕ, ◌+◌, ◌==◌, ◌&&◌, ◌≡◌, refl, sym, ◌≤◌, ◌⊎◌, inl, inr, Bool, true, false, List, [], ◌∷◌, Option,
  none, some, String, nat_eq, nat_eq-eq, find, is_some, All, All-kept, All-mono, All-find,
  Bool-cases, arith, if_both,
}
use card_scope.Client.{Result, value, failed}
use card_scope.Detail.{
  Point, Occurrence, Round, GpuDetail, Event, rendered, hours_chosen, history_answered,
  events_answered, is_run, without, begin, mounted, settle, put_together, on_history, on_events,
  step, run,
}

-- A run of the effect waits for an answer.
abbrev pub is_awaited : GpuDetail → Bool
is_awaited s = is_some (find (is_run s.run) s.pending)

abbrev Holds : {A : Type 0} → (A → Type 0) → Option A → Type 0
Holds P none = Unit
Holds P (some a) = P a

find-without :
    (k n : ℕ) (ps : List Round)
    → nat_eq k n ≡ false
    → is_some (find (is_run n) (without k ps)) ≡ is_some (find (is_run n) ps)
find-without k n [] h = refl
find-without k n (p ∷ ps) h = ground (arith, find-without k n ps h)

-- H, E and F hold of the answers to the requests of a run: the histories, the events, the errors.
module _ (H : ℕ → List Point → Type 0) (E : ℕ → List Occurrence → Type 0)
    (F : ℕ → String → Type 0) where
  abbrev pub Answers : Event → Type 0
  Answers (history_answered k (value h)) = H k h
  Answers (history_answered k (failed m)) = F k m
  Answers (events_answered k (value e)) = E k e
  Answers (events_answered k (failed m)) = F k m
  Answers _ = Unit

  abbrev IsOf : ℕ → Round → Type 0
  IsOf n p = (p.run ≤ n) × Holds (H p.run) p.points × Holds (E p.run) p.occurrences

  abbrev pub IsOutcome : GpuDetail → Type 0
  IsOutcome s = F s.run s.error ⊎ (H s.run s.history × E s.run s.events × (s.error ≡ ""))

  abbrev pub IsTogether : GpuDetail → Type 0
  IsTogether s =
      ((s.history ≡ []) × (s.events ≡ [])) ⊎ ((k : ℕ) × (k ≤ s.run) × H k s.history × E k s.events)

  abbrev pub IsSound : GpuDetail → Type 0
  IsSound s = All (IsOf s.run) s.pending × ((is_awaited s ≡ true) ⊎ IsOutcome s) × IsTogether s

  later : (k : ℕ) (s : GpuDetail) → IsTogether s → IsTogether (record s { run = s.run + 1 })
  later k s (inl nothing) = inl nothing
  later k s (inr (j, past, h, e)) = inr (j, omega (arith, past), h, e)

  begin-IsSound :
      (now : ℕ) (s : GpuDetail) → All (IsOf s.run) s.pending → IsTogether s → IsSound (begin now s)
  unfolding begin
  begin-IsSound now s past together = (
    ((omega arith, tt, tt), All-mono _ _ s.pending (λ p h. (omega (arith, h.0), h.1, h.2)) past),
    inl (ground arith),
    later 0 s together,
  )

  -- The promise of a round of an earlier run changes the open ones only.
  late-IsSound :
      (k : ℕ) (s : GpuDetail)
      → nat_eq k s.run ≡ false
      → IsSound s
      → IsSound (record s { pending = without k s.pending })
  late-IsSound k s late (past, now, together) = (
    All-kept _ _ s.pending past,
    subst (λ b. (b ≡ true) ⊎ IsOutcome s) (sym (find-without k s.run s.pending late)) now,
    together,
  )

  kept-IsSound :
      (k : ℕ) (s : GpuDetail) (h : List Point) (e : List Occurrence)
      → IsSound s
      → H k h
      → E k e
      → IsSound (settle k (value (h, e)) (record s { pending = without k s.pending }))
  unfolding settle
  kept-IsSound k s h e sound its_h its_e = elim (Bool-cases (nat_eq k s.run)) [
    | inl same ↦ rw same (
        let at_run = nat_eq-eq k s.run same in
        let its_h = subst (λ j. H j h) at_run its_h in
        let its_e = subst (λ j. E j e) at_run its_e in
        (
          All-kept _ _ s.pending sound.0,
          inr (inr (its_h, its_e, refl)),
          inr (s.run, omega arith, its_h, its_e),
        ))
    | inr late ↦ rw late (late-IsSound k s late sound)
  ]

  rejected-IsSound :
      (k : ℕ) (s : GpuDetail) (m : String)
      → IsSound s
      → F k m
      → IsSound (settle k (failed m) (record s { pending = without k s.pending }))
  unfolding settle
  rejected-IsSound k s m sound its = elim (Bool-cases (nat_eq k s.run)) [
    | inl same ↦ rw same (
      All-kept _ _ s.pending sound.0,
      inr (inl (subst (λ j. F j m) (nat_eq-eq k s.run same) its)),
      sound.2,
    )
    | inr late ↦ rw late (late-IsSound k s late sound)
  ]

  -- One of the two answers of a round has come, and the round still waits.
  waiting-IsSound :
      (p q : Round) (s : GpuDetail)
      → IsSound s
      → q.run ≡ p.run
      → IsOf s.run q
      → IsSound (record s { pending = q ∷ without p.run s.pending })
  waiting-IsSound p q s sound same its = (
    (its, All-kept _ _ s.pending sound.0),
    elim (Bool-cases (nat_eq q.run s.run)) [
      | inl own ↦ inl (rw own refl)
      | inr late ↦ rw late (
          subst (λ b. (b ≡ true) ⊎ IsOutcome s)
            (sym
              (find-without p.run s.run s.pending (subst (λ k. nat_eq k s.run ≡ false) same late)))
            sound.1)
    ],
    sound.2,
  )

  put_together-IsSound :
      (p : Round) (h : Option (List Point)) (e : Option (List Occurrence)) (s : GpuDetail)
      → IsSound s
      → p.run ≤ s.run
      → Holds (H p.run) h
      → Holds (E p.run) e
      → IsSound (put_together p h e s)
  unfolding put_together
  put_together-IsSound p (some h) (some e) s sound past its_h its_e =
      kept-IsSound p.run s h e sound its_h its_e
  put_together-IsSound p (some h) none s sound past its_h its_e =
      waiting-IsSound p (record p { points = some h; occurrences = none }) s sound refl
        (past, its_h, tt)
  put_together-IsSound p none e s sound past its_h its_e =
      waiting-IsSound p (record p { points = none; occurrences = e }) s sound refl (past, tt, its_e)

  -- The answer of a run is one to the round that is found under its number.
  on_history-IsSound :
      (o : Option Round) (k : ℕ) (r : Result (List Point)) (s : GpuDetail)
      → ((p : Round) → o ≡ some p → (p.run ≡ k) × IsOf s.run p)
      → IsSound s
      → Answers (history_answered k r)
      → IsSound (on_history o r s)
  unfolding on_history
  on_history-IsSound none k r s found sound its = sound
  on_history-IsSound (some p) k (value h) s found sound its =
      let (own, (past, _, events)) = found p refl in
      if_both IsSound (is_some p.points) _ _ (λ again. sound)
        (λ new.
          put_together-IsSound p (some h) p.occurrences s sound past
            (subst (λ j. H j h) (sym own) its) events)
  on_history-IsSound (some p) k (failed m) s found sound its =
      if_both IsSound (is_some p.points) _ _ (λ again. sound)
        (λ new. rejected-IsSound p.run s m sound (subst (λ j. F j m) (sym (found p refl).0) its))

  on_events-IsSound :
      (o : Option Round) (k : ℕ) (r : Result (List Occurrence)) (s : GpuDetail)
      → ((p : Round) → o ≡ some p → (p.run ≡ k) × IsOf s.run p)
      → IsSound s
      → Answers (events_answered k r)
      → IsSound (on_events o r s)
  unfolding on_events
  on_events-IsSound none k r s found sound its = sound
  on_events-IsSound (some p) k (value e) s found sound its =
      let (own, (past, points, _)) = found p refl in
      if_both IsSound (is_some p.occurrences) _ _ (λ again. sound)
        (λ new.
          put_together-IsSound p p.points (some e) s sound past points
            (subst (λ j. E j e) (sym own) its))
  on_events-IsSound (some p) k (failed m) s found sound its =
      if_both IsSound (is_some p.occurrences) _ _ (λ again. sound)
        (λ new. rejected-IsSound p.run s m sound (subst (λ j. F j m) (sym (found p refl).0) its))

  found-IsOf :
      (k : ℕ) (s : GpuDetail)
      → IsSound s
      → (p : Round) → find (is_run k) s.pending ≡ some p
      → (p.run ≡ k) × IsOf s.run p
  found-IsOf k s sound p found =
      let (its, own) = All-find (IsOf s.run) (is_run k) s.pending sound.0 found in
      (nat_eq-eq p.run k own, its)

  step-IsSound : (s : GpuDetail) (e : Event) → IsSound s → Answers e → IsSound (step s e)
  unfolding step
  step-IsSound s (rendered node gpu sample_at now) sound its =
      if_both IsSound (node == s.node && gpu == s.gpu && nat_eq sample_at s.sample_at) _ _
        (λ same. sound) (λ other. begin-IsSound now _ sound.0 sound.2)
  step-IsSound s (hours_chosen hours now) sound its =
      if_both IsSound (hours == s.hours) _ _ (λ same. sound)
        (λ other. begin-IsSound now _ sound.0 sound.2)
  step-IsSound s (history_answered k r) sound its =
      on_history-IsSound (find (is_run k) s.pending) k r s (found-IsOf k s sound) sound its
  step-IsSound s (events_answered k r) sound its =
      on_events-IsSound (find (is_run k) s.pending) k r s (found-IsOf k s sound) sound its

  pub run-IsSound :
      (s : GpuDetail) (es : List Event) → IsSound s → All Answers es → IsSound (run s es)
  unfolding run
  run-IsSound s [] sound its = sound
  run-IsSound s (e ∷ es) sound its = run-IsSound (step s e) es (step-IsSound s e sound its.0) its.1

  pub mounted-IsSound :
      (node gpu : String) (sample_at now : ℕ) → IsSound (mounted node gpu sample_at now)
  unfolding mounted
  mounted-IsSound node gpu sample_at now = begin-IsSound now _ tt (inl (refl, refl))
