-- ===== src/Runtime/Wakes.antt =====
-- hypertile-core/src/runtime.rs: `block_on` misses no wake, and returns.
use hypertile.Base.{
  Parker, ℕ, ◌≡◌, ◌⊎◌, refl, ap, ◌∙◌, subst, inl, inr, Bool, true, false, ◌||◌, Option, none, some,
  List, [], ◌∷◌, Bool-cases,
}
use hypertile.Runtime.Blocking.{
  Polled, ready, pending, Future, BlockPc, polling, parking, returned, Blocked, Event, go_on,
  changes, wake, begin, polled, parked, block_step, wake_by_ref, act, run,
}

module _ (P : Parker) {V : Type 0} (F : Future V) where
  -- There is nothing to do for the thread, or it will be told.
  abbrev pub Told : F.State → P.Token → Bool → Type 0
  Told s t owed =
      (F.can_progress s ≡ false) ⊎ ((owed ≡ true) ⊎ ((u : P.Token) × (P.park t ≡ some u)))

  abbrev pub Sound : BlockPc V → F.State → P.Token → Bool → Type 0
  Sound parking s t owed = Told s t owed
  Sound pc s t owed = Unit

  abbrev pub IsSound : Blocked P F → Type 0
  IsSound b = Sound b.pc b.future b.token b.owed

  Told-Sound :
      (pc : BlockPc V) (s : F.State) (t : P.Token) (owed : Bool) → Told s t owed → Sound pc s t owed
  Told-Sound polling s t owed h = tt
  Told-Sound parking s t owed h = h
  Told-Sound (returned v) s t owed h = tt

  Sound-mono :
      (pc : BlockPc V) (s s' : F.State) (t : P.Token) (owed owed' : Bool)
      → (Told s t owed → Told s' t owed')
      → Sound pc s t owed
      → Sound pc s' t owed'
  Sound-mono polling s s' t owed owed' f h = tt
  Sound-mono parking s s' t owed owed' f h = f h
  Sound-mono (returned v) s s' t owed owed' f h = tt

  polled-IsSound :
      (p : Polled F.State V) (b : Blocked P F) → F.poll b.future ≡ p → IsSound (polled p b)
  unfolding polled
  polled-IsSound (ready v) b e = tt
  polled-IsSound (pending s true) b e = inr (inr (P.park-unpark b.token))
  polled-IsSound (pending s false) b e = inl (F.poll-pending b.future s e)

  parked-IsSound : (o : Option P.Token) (b : Blocked P F) → IsSound b → IsSound (parked o b)
  unfolding parked
  parked-IsSound none b h = h
  parked-IsSound (some t) b h = tt

  block_step-IsSound : (pc : BlockPc V) (b : Blocked P F) → IsSound b → IsSound (block_step pc b)
  unfolding block_step
  block_step-IsSound polling b h = polled-IsSound (F.poll b.future) b refl
  block_step-IsSound parking b h = parked-IsSound (P.park b.token) b h
  block_step-IsSound (returned v) b h = h

  change-Told :
      (x : ℕ) (s : F.State) (t : P.Token) (owed : Bool)
      → Told s t owed
      → Told (F.change x s).0 t (owed || (F.change x s).1)
  change-Told x s t true h = inr (inl refl)
  change-Told x s t false (inl h) = elim (Bool-cases (F.change x s).1) [
    | inl o ↦ inr (inl o)
    | inr o ↦ inl (F.change-owes x s h o)
  ]
  change-Told x s t false (inr (inl h)) = cc
  change-Told x s t false (inr (inr h)) = inr (inr h)

  act-IsSound : (e : Event) (b : Blocked P F) → IsSound b → IsSound (act e b)
  unfolding act wake_by_ref
  act-IsSound go_on b h = block_step-IsSound b.pc b h
  act-IsSound (changes x) b h =
      Sound-mono b.pc b.future (F.change x b.future).0 b.token b.owed
        (b.owed || (F.change x b.future).1) (change-Told x b.future b.token b.owed) h
  act-IsSound wake b h =
      Told-Sound b.pc b.future (P.unpark b.token) false (inr (inr (P.park-unpark b.token)))

  run-IsSound : (es : List Event) (b : Blocked P F) → IsSound b → IsSound (run es b)
  unfolding run
  run-IsSound [] b h = h
  run-IsSound (e ∷ es) b h = run-IsSound es (act e b) (act-IsSound e b h)

  -- What `block_on` of a future in the state `s` comes to.
  abbrev pub after : F.State → List Event → Blocked P F
  after s es = run es (begin s)

  after-IsSound : (s : F.State) (es : List Event) → IsSound (after s es)
  unfolding begin
  after-IsSound s es = run-IsSound es (begin s) tt

  -- After any events, a thread that blocks in `block_on` with no wake owed has a future that can make
  -- no progress.
  pub park-can_progress :
      (s : F.State) (es : List Event)
      → (after s es).pc ≡ parking
      → P.park (after s es).token ≡ none
      → (after s es).owed ≡ false
      → F.can_progress (after s es).future ≡ false
  park-can_progress s es p n o = elim told [ inl h ↦ h | inr (inl h) ↦ cc | inr (inr (u, h)) ↦ cc ]
    where
      told : Told (after s es).future (after s es).token (after s es).owed
      told =
          let b = after s es in
          subst (λ pc. Sound pc b.future b.token b.owed) p (after-IsSound s es)

  from_polling :
      (v : V) (b : Blocked P F) → F.poll b.future ≡ ready v → (block_step polling b).pc ≡ returned v
  unfolding block_step polled
  from_polling v b h = ap (λ p. (polled p b).pc) h

  stays_returned :
      (v : V) (b : Blocked P F) → b.pc ≡ returned v → (run (go_on ∷ []) b).pc ≡ returned v
  unfolding run act block_step
  stays_returned v b h = ap (λ pc. (block_step pc b).pc) h ∙ h

  -- With a token, the thread polls once more.
  from_parking :
      (v : V) (t : P.Token) (b : Blocked P F)
      → P.park b.token ≡ some t
      → F.poll b.future ≡ ready v
      → (run (go_on ∷ []) (block_step parking b)).pc ≡ returned v
  unfolding run act block_step parked
  from_parking v t b e h =
      ap (λ o. let c = parked o b in (block_step c.pc c).pc) e
      ∙ from_polling v (record b { token = t; pc = polling }) h

  can_run :
      (s : F.State) (t : P.Token) (owed : Bool)
      → Told s t owed
      → F.can_progress s ≡ true
      → owed ≡ false
      → (u : P.Token) × (P.park t ≡ some u)
  can_run s t owed (inl h) c o = cc
  can_run s t owed (inr (inl h)) c o = cc
  can_run s t owed (inr (inr h)) c o = h

  abbrev pub is_returned : BlockPc V → Bool
  is_returned (returned v) = true
  is_returned pc = false

  returns_from :
      (v : V) (pc : BlockPc V) (b : Blocked P F)
      → b.pc ≡ pc
      → is_returned pc ≡ false
      → IsSound b
      → b.owed ≡ false
      → F.poll b.future ≡ ready v
      → (run (go_on ∷ go_on ∷ []) b).pc ≡ returned v
  unfolding run act
  returns_from v polling b p r i o h =
      ap (λ pc. (run (go_on ∷ []) (block_step pc b)).pc) p
      ∙ stays_returned v (block_step polling b) (from_polling v b h)
  returns_from v parking b p r i o h =
      let told = subst (λ pc. Sound pc b.future b.token b.owed) p i in
      let (t, e) = can_run b.future b.token b.owed told (F.poll-ready b.future v h) o in
      ap (λ pc. (run (go_on ∷ []) (block_step pc b)).pc) p ∙ from_parking v t b e h
  returns_from v (returned w) b p r i o h = absurd (cc)

  -- After any events, if the future is ready with a value, no wake is owed, and `block_on` has not
  -- returned, then two steps of its thread return that value.
  pub block_on_returns :
      (s : F.State) (es : List Event) (v : V)
      → is_returned (after s es).pc ≡ false
      → (after s es).owed ≡ false
      → F.poll (after s es).future ≡ ready v
      → (run (go_on ∷ go_on ∷ []) (after s es)).pc ≡ returned v
  block_on_returns s es v r o h =
      returns_from v (after s es).pc (after s es) refl r (after-IsSound s es) o h
