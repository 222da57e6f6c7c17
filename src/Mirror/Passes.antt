-- ===== src/Mirror/Passes.antt =====
-- What one pass over a set of objects to mirror submits, and what that does when it is applied.
use distribd.Prelude.{
  ℕ, String, none, some, List, [], ◌∷◌, ok, panic, ◌≡◌, refl, sym, ap, ◌∙◌, arith, subst, inl, inr,
  ◌⊎◌, Option-cases, true, false, ==_refl, nat_eq, In, head, tail, In-append_left, In-append_right,
  In-append_cases,
}
use distribd.Prelude.Set
use distribd.Types.{digest_eq, Digest, Artifact, RegistryAction}
use distribd.StateMachine.{Db, stored, apply_action, apply_actions}
use distribd.Mirror.{
  MirrorRequest, blob, manifest, MirrorResult, success, retry, nothing, succeed, Download, sources,
  digest_of, entry_of, do_transfer, Look, log_action, mirror_all,
}
use distribd.Mirror.Transfers.{IsVerified, action_of, transfer_success}
use distribd.Mirror.Changes.{Stores, succeed-Stores}

module _ (hash : List ℕ → Digest) (id : ℕ) where
  -- The node lacks the object and another has it, what the source that is chosen sends has its hash,
  -- and so has the file that is read back, which is moved in place.
  pub record CanFetch (look : Look) : Type 0 where
    pub artifact : Artifact
    pub source : ℕ × String
    pub download : Download
    pub file : List ℕ
    pub known : entry_of look.db look.request ≡ some artifact
    pub absent : Set.contains artifact.locations id ≡ false
    pub held : Set.is_empty artifact.locations ≡ false
    pub chosen :
        look.choose (sources artifact.locations look.db.last_membership.nodes) ≡ some source
    pub fetched : look.fetch source ≡ some download
    pub right : hash download.received ≡ digest_of look.request
    pub back : download.read_back ≡ some file
    pub right_file : hash file ≡ digest_of look.request
    pub moved : download.renamed ≡ true

  -- the transaction of an object that was fetched
  abbrev pub stores_here : Look → List RegistryAction
  stores_here look = action_of (succeed look.now id look.request)

  -- Applied whenever it is, it panics if the object has no entry then; or else the object is here, and
  -- every other object stays as it is.
  abbrev pub IsApplied : Look → Db → Type 0
  IsApplied look db =
      ((entry_of db look.request ≡ none) × (apply_actions (stores_here look) db ≡ panic))
      ⊎ ((db' : Db) × (apply_actions (stores_here look) db ≡ ok db')
          × Stores id db db' look.request)

  pub record IsPass (looks : List Look) (transactions : List (List RegistryAction)) : Type 0 where
    pub sent : (look : Look) → In look looks → CanFetch look → In (stores_here look) transactions
    pub only :
        (transaction : List RegistryAction)
        → In transaction transactions
        → (look : Look) × In look looks
          × (transaction ≡ stores_here look)
          × IsVerified hash look.choose look.fetch id look.db look.request
    pub applied : (look : Look) → In look looks → (db : Db) → IsApplied look db

  abbrev result_of : Look → MirrorResult
  result_of look = do_transfer hash look.choose look.fetch look.now id look.db look.request

  succeed-success :
      (t : ℕ) (request : MirrorRequest)
      → (action : RegistryAction) × (succeed t id request ≡ success request action)
  succeed-success t (blob d) = (_, refl)
  succeed-success t (manifest d) = (_, refl)

  transferred : (look : Look) → CanFetch look → result_of look ≡ succeed look.now id look.request
  unfolding do_transfer
  transferred look can = ground (
    arith,
    can.known,
    can.absent,
    can.held,
    can.chosen,
    can.fetched,
    can.right,
    can.back,
    can.right_file,
    can.moved,
    ==_refl (digest_of look.request),
  )

  look-sent : (look : Look) → CanFetch look → In (stores_here look) (log_action (result_of look))
  look-sent look can =
      let (action, same) = succeed-success look.now look.request in
      subst (λ r. In (action_of r) (log_action (result_of look))) (sym same)
        (subst (λ r. In (action ∷ []) (log_action r)) (sym (transferred look can ∙ same))
          (head refl))

  look-only :
      (look : Look) (transaction : List RegistryAction)
      → In transaction (log_action (result_of look))
      → (transaction ≡ stores_here look)
        × IsVerified hash look.choose look.fetch id look.db look.request
  look-only look transaction m = from (result_of look) refl m
    where
      from :
          (r : MirrorResult)
          → result_of look ≡ r
          → In transaction (log_action r)
          → (transaction ≡ stores_here look)
            × IsVerified hash look.choose look.fetch id look.db look.request
      from (retry q) e m = elim m [ ]
      from nothing e m = elim m [ ]
      from (success q action) e m =
          let (verified, same) =
            transfer_success hash look.choose look.fetch look.now id look.db look.request q action
              e in
          elim m [
            | head own ↦ (sym own ∙ ap action_of (sym same), verified)
            | tail later ↦ elim later [ ]
          ]

  missing_panics :
      (t : ℕ) (request : MirrorRequest) (db : Db)
      → entry_of db request ≡ none
      → apply_actions (action_of (succeed t id request)) db ≡ panic
  unfolding apply_actions apply_action stored
  missing_panics t (blob d) db e = rw e refl
  missing_panics t (manifest d) db e = rw e refl

  look-IsApplied : (look : Look) (db : Db) → IsApplied look db
  look-IsApplied look db = elim (Option-cases (entry_of db look.request)) [
    | inl e ↦ inl (e, missing_panics look.now look.request db e)
    | inr (artifact, e) ↦ inr (succeed-Stores id look.now db look.request artifact e)
  ]

  -- A pass submits a transaction for each object that can be fetched as the database is when the pass
  -- comes to it, and no other transaction but of a transfer that has verified its bytes and its file.
  -- Whenever and to whatever database such a transaction is applied, it panics if the object has no
  -- entry then; or else the object then has this node among its locations, and every other object and
  -- the membership stay as they are.
  pub mirror_all-IsPass : (looks : List Look) → IsPass looks (mirror_all hash id looks)
  unfolding mirror_all
  mirror_all-IsPass [] = record {
    sent = λ look m. elim m [ ];
    only = λ transaction m. elim m [ ];
    applied = λ look m db. look-IsApplied look db;
  }
  mirror_all-IsPass (look ∷ looks) =
      let rest = mirror_all-IsPass looks in
      record {
        sent = λ l m can. elim m [
          | head same ↦ In-append_left (mirror_all hash id looks) (
              subst (λ x. In (stores_here x) (log_action (result_of look))) same
                (look-sent look (subst CanFetch (sym same) can)))
          | tail later ↦ In-append_right (log_action (result_of look)) (rest.sent l later can)
        ];
        only = λ transaction m. elim (In-append_cases (log_action (result_of look)) m) [
          | inl own ↦
              let (same, verified) = look-only look transaction own in
              (look, head refl, same, verified)
          | inr later ↦
              let (l, among, same, verified) = rest.only transaction later in
              (l, tail among, same, verified)
        ];
        applied = λ l m db. look-IsApplied l db;
      }
