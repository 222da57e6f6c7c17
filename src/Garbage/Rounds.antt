-- ===== src/Garbage/Rounds.antt =====
-- The loop of src/garbage.rs: whatever rounds it makes, its transactions spare what is in use.
use distribd.Prelude.{
  ℕ, Option, some, List, [], ◌∷◌, ◌++◌, ok, Bool, true, false, ◌≡◌, refl, sym, subst, none,
  none-some, some-inj, if◌then◌else◌, inl, inr, Bool-cases, All, All-append,
}
use distribd.Types.{Digest, RegistryAction}
use distribd.StateMachine.{Db, apply_actions}
use distribd.StateMachine.Keys.{IsKeyed}
use distribd.Orphans.Reach.{Picks}
use distribd.Garbage.{
  do_garbage_collect_phase1, do_garbage_collect_phase2, Tick, Sweep, submit, and_then, sweep,
  runs_phase1, runs_phase2, is_shutdown, do_garbage_collect,
}
use distribd.Garbage.Safety.{
  KeepsUsed, do_garbage_collect_phase1-KeepsUsed, do_garbage_collect_phase2-KeepsUsed,
}

-- The transaction goes through on every database, and keeps what was in use where it was computed.
abbrev pub SparesUsed : Sweep → Type 0
SparesUsed (db₀, acts) =
    (db : Db) → (db' : Db) × (apply_actions acts db ≡ ok db') × KeepsUsed db₀ db db'

abbrev pub AreSpared : Option (List Sweep) → Type 0
AreSpared result = (sweeps : List Sweep) × (result ≡ some sweeps) × All SparesUsed sweeps

both : (a b : Option (List Sweep)) → AreSpared a → AreSpared b → AreSpared (and_then a b)
both a b (xs, p, h) (ys, q, k) = (xs ++ ys, rw (p, q) refl, All-append SparesUsed xs ys h k)

submitted :
    (db₀ : Db) (acts : List RegistryAction)
    → SparesUsed (db₀, acts)
    → AreSpared (submit db₀ (some acts))
submitted db₀ [] h = ([], refl, tt)
submitted db₀ (a ∷ acts) h = ((db₀, a ∷ acts) ∷ [], refl, (h, tt))

-- what a sweep's theorem says of its result
lift :
    (db₀ : Db) (result : Option (List RegistryAction))
    → ((db : Db)
        → (acts : List RegistryAction) × (result ≡ some acts)
          × ((db' : Db) × (apply_actions acts db ≡ ok db') × KeepsUsed db₀ db db'))
    → AreSpared (submit db₀ result)
lift db₀ none h = let (acts, p, spared) = h db₀ in absurd (none-some acts p)
lift db₀ (some acts) h = submitted db₀ acts (λ db.
    let (acts', p, spared) = h db in
    subst (λ l. (db' : Db) × (apply_actions l db ≡ ok db') × KeepsUsed db₀ db db')
      (sym (some-inj acts acts' p)) spared)

nothing : AreSpared (some [])
nothing = ([], refl, tt)

module _ (id : ℕ) (pick : List Digest → Option Digest) (picks : Picks pick) where
  abbrev pub AreKeyed : List Tick → Type 0
  AreKeyed = All (λ t. IsKeyed t.phase1_db × IsKeyed t.phase2_db)

  sweep-AreSpared :
      (t : Tick) → IsKeyed t.phase1_db → IsKeyed t.phase2_db → AreSpared (sweep id pick t)
  sweep-AreSpared t k₁ k₂ = both _ _ (first (runs_phase1 t.state)) (second (runs_phase2 t.state))
    where
      first :
          (b : Bool)
          → AreSpared (
              if b
              then submit t.phase1_db (do_garbage_collect_phase1 t.clock pick t.phase1_db)
              else some [])
      first true =
          lift t.phase1_db _
            (λ db. do_garbage_collect_phase1-KeepsUsed pick picks t.phase1_db k₁ t.clock db)
      first false = nothing

      second :
          (b : Bool)
          → AreSpared (
              if b
              then submit t.phase2_db (
                  do_garbage_collect_phase2 t.clock id t.manifest_cleaned t.blob_cleaned pick
                    t.phase2_db)
              else some [])
      second true = lift t.phase2_db _ (λ db.
          do_garbage_collect_phase2-KeepsUsed pick picks t.phase2_db k₂ t.clock db id
            t.manifest_cleaned t.blob_cleaned)
      second false = nothing

  -- Whatever states the rounds of the loop find the node in, every sweep ends, and the transaction of
  -- each, computed from a database without two rows of one key and applied to any other that the log
  -- has led to meanwhile, goes through and keeps what was in use in the first: each blob that a
  -- manifest reaches, each manifest that a tag names, and each tag.
  pub do_garbage_collect-AreSpared :
      (ticks : List Tick) → AreKeyed ticks → AreSpared (do_garbage_collect id pick ticks)
  unfolding do_garbage_collect
  do_garbage_collect-AreSpared [] k = nothing
  do_garbage_collect-AreSpared (t ∷ ticks) k = elim (Bool-cases (is_shutdown t.state)) [
    | inl last ↦ rw last (sweep-AreSpared t k.0.0 k.0.1)
    | inr on ↦
        rw on (both _ _ (sweep-AreSpared t k.0.0 k.0.1) (do_garbage_collect-AreSpared ticks k.1))
  ]
