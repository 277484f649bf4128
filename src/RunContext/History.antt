-- ===== src/RunContext/History.antt =====
-- internal/runcontext/context.go: what holds over every history of a ledger, restarts included.
use nexus_gateway.Prelude.{
  ◌≡◌, ◌⊎◌, inl, inr, refl, sym, ap, subst, String, Bool, true, false, List, [], ◌∷◌, ◌||◌, Option,
  none, some, arith, Bool-cases, str_eq, eq_iff, if◌then◌else◌,
}
use nexus_gateway.RunContext.{
  Time, Scope, Context, Envelope, State, Ledger, LedgerError, Checked, refused, accepted, Json,
  Store, verify, open_ledger, initialize, created, first_state,
}
use nexus_gateway.RunContext.Writing.{Written, commit, apply, invalidate_run, invalidate_context}
use nexus_gateway.RunContext.Opening.{
  ledger_of, at_rest, Later, Later-refl, Later-trans, vacant, Valid, Sound, Moved, open-Valid,
  open_state-Valid,
}
use nexus_gateway.RunContext.Steps.{
  ReadsBack, commit-Moved, apply_to-Moved, invalidate_held-Moved, invalidate_verified-Moved,
}

-- What its clients do to a ledger, with what the disk answers, and a restart of the process.
pub data Op : Type 0 where
  commits : Envelope → Time → Written → Op
  applies : Time → Written → Op
  resets : String → Written → Op
  resets_context : Envelope → Written → Op
  restarts : Op

module _ {B : Type 0} (json : Json B) (scope : Scope) where
  unfoldable pub reopened : Checked Ledger → Store B → Checked (Store B × Option LedgerError)
  reopened (refused x) s = refused x
  reopened (accepted l) s = accepted (record s { ledger = l }, none)

  -- A restart opens the file; it has nothing to answer.
  unfoldable pub perform : Op → Store B → Checked (Store B × Option LedgerError)
  unfolding open_ledger commit apply invalidate_run invalidate_context reopened
  perform (commits e at out) s = accepted (commit json e at out s)
  perform (applies at out) s = accepted (apply json at out s)
  perform (resets run out) s = accepted (invalidate_run json run out s)
  perform (resets_context e out) s = accepted (invalidate_context json e out s)
  perform restarts s = reopened (open_ledger json scope s.file) s

  abbrev pub and_then :
      Checked (Store B × Option LedgerError) → (Store B → Checked (Store B)) → Checked (Store B)
  and_then (refused x) next = refused x
  and_then (accepted r) next = next r.0

  unfoldable pub history : List Op → Store B → Checked (Store B)
  unfolding perform
  history [] s = accepted s
  history (op ∷ ops) s = and_then (perform op s) (history ops)

  -- A process begins with a ledger that it makes or opens.
  pub data Begins (s : Store B) : Type 0 where
    made : (wrote : Bool) → initialize json scope wrote ≡ accepted s → Begins s
    found : open_ledger json scope s.file ≡ accepted s.ledger → Begins s

  -- A store whose file can be opened, and is what the ledger holds unless that has failed.
  abbrev pub Recovers : Checked (Store B) → Type 0
  Recovers (refused x) = ⊥
  Recovers (accepted t) =
      (l : Ledger) × (open_ledger json scope t.file ≡ accepted l)
      × ((t.ledger.failed ≡ true) ⊎ (t.ledger ≡ l))

  -- A guard that was met.
  met : (b : Bool) (x r : Store B × Option LedgerError) → b ≡ true → (if b then x else r).0 ≡ x.0
  met true x r h = refl
  met false x r h = cc h

  rest-eta :
      (s : Store B) (d : State) (k : Option Context)
      → s.ledger ≡ ledger_of d k
      → s ≡ at_rest d k s.file
  rest-eta s d k h = ap (λ (l : Ledger). record { ledger = l; file = s.file }) h

  -- An operation that does nothing to a failed ledger, on any store.
  acts :
      (f : Store B → Store B × Option LedgerError) (s : Store B) (d : State) (k : Option Context)
      → (s.ledger.failed ≡ true → (f s).0 ≡ s)
      → (json.decode_state s.file ≡ some d
          → Valid json scope d k
          → Moved json scope d k (f (at_rest d k s.file)).0)
      → Sound json scope s d k
      → Moved json scope d k (f s).0
  acts f s d k still moves h = elim h.rests [
    | inl e ↦
        subst (λ (t : Store B). Moved json scope d k t) (sym (still e)) (d, k, Later-refl d k, h)
    | inr e ↦
        subst (λ (t : Store B). Moved json scope d k (f t).0) (sym (rest-eta s d k e))
          (moves h.decodes h.valid)
  ]

  -- The files that an operation can leave, opened.
  Goes : State → Option Context → Checked (Store B × Option LedgerError) → Type 0
  Goes d k (refused x) = ⊥
  Goes d k (accepted r) = Moved json scope d k r.0

  open-Sound :
      (s : Store B) (d : State) (k : Option Context)
      → Sound json scope s d k
      → open_ledger json scope s.file ≡ accepted (ledger_of d k)
  unfolding open_ledger
  open-Sound s d k h = rw h.decodes (open-Valid json scope d k h.valid)

  module _ (back : ReadsBack json scope) where
    perform-Goes :
        (op : Op) (s : Store B) (d : State) (k : Option Context)
        → Sound json scope s d k
        → Goes d k (perform op s)
    unfolding perform reopened Goes commit apply invalidate_run invalidate_context
    perform-Goes (commits e at out) s d k h =
        acts (commit json e at out) s d k (met s.ledger.failed _ _)
          (λ p v. commit-Moved json scope back d k s.file p v e at out) h
    perform-Goes (applies at out) s d k h =
        acts (apply json at out) s d k (met s.ledger.failed _ _)
          (λ p v. apply_to-Moved json scope back d k s.file p v k at out refl) h
    perform-Goes (resets run out) s d k h =
        acts (invalidate_run json run out) s d k (met s.ledger.failed _ _)
          (λ p v. invalidate_held-Moved json scope back d k s.file p v k run out) h
    perform-Goes (resets_context e out) s d k h =
        acts (invalidate_context json e out) s d k (met s.ledger.failed _ _)
          (λ p v.
            invalidate_verified-Moved json scope back d k s.file p v k (verify json d.scope e) out)
          h
    perform-Goes restarts s d k h =
        subst (λ (r : Checked Ledger). Goes d k (reopened r s)) (sym (open-Sound s d k h))
          (d, k, Later-refl d k, record { valid = h.valid; decodes = h.decodes; rests = inr refl })

    -- All files that a history can leave, opened.
    Reaches : State → Option Context → Checked (Store B) → Type 0
    Reaches d k (refused x) = ⊥
    Reaches d k (accepted t) = Moved json scope d k t

    further :
        (d : State) (k : Option Context) (d' : State) (k' : Option Context) (r : Checked (Store B))
        → Later d k d' k'
        → Reaches d' k' r
        → Reaches d k r
    unfolding Reaches
    further d k d' k' (refused x) l h = h
    further d k d' k' (accepted t) l (d'', k'', m, h) =
        (d'', k'', Later-trans d k d' k' d'' k'' l m, h)

    after-Reaches :
        (next : Store B → Checked (Store B)) (d : State) (k : Option Context)
        (r : Checked (Store B × Option LedgerError))
        → ((t : Store B) (d' : State) (k' : Option Context)
            → Sound json scope t d' k'
            → Reaches d' k' (next t))
        → Goes d k r
        → Reaches d k (and_then r next)
    unfolding Reaches Goes
    after-Reaches next d k (refused x) go h = h
    after-Reaches next d k (accepted r) go (d', k', l, h) =
        further d k d' k' (next r.0) l (go r.0 d' k' h)

    history-Reaches :
        (ops : List Op) (s : Store B) (d : State) (k : Option Context)
        → Sound json scope s d k
        → Reaches d k (history ops s)
    unfolding history Reaches
    history-Reaches [] s d k h = (d, k, Later-refl d k, h)
    history-Reaches (op ∷ ops) s d k h =
        after-Reaches (history ops) d k (perform op s) (history-Reaches ops)
          (perform-Goes op s d k h)

    -- The store that a history ends in.
    pub reached :
        (ops : List Op) (s t : Store B) (d : State) (k : Option Context)
        → Sound json scope s d k
        → history ops s ≡ accepted t
        → Moved json scope d k t
    unfolding Reaches
    reached ops s t d k h e =
        subst (λ (r : Checked (Store B)). Reaches d k r) e (history-Reaches ops s d k h)

    created-Sound :
        (o : Option B) (wrote : Bool) (s : Store B)
        → json.marshal_state (first_state scope) ≡ o
        → created json scope o wrote ≡ accepted s
        → Sound json scope s (first_state scope) none
    unfolding created
    created-Sound none wrote s p h = cc h
    created-Sound (some raw) false s p h = cc h
    created-Sound (some raw) true s p h =
        subst (λ (t : Store B). Sound json scope t (first_state scope) none) (cc h)
          (record {
            valid = record {
              header = ground (
                arith,
                eq_iff scope.gateway_id scope.gateway_id,
                eq_iff scope.clock_id scope.clock_id,
              );
              holds = vacant refl refl refl;
            };
            decodes = back (first_state scope) raw p;
            rests = inr refl;
          })

    pub begins-Sound :
        (s : Store B) → Begins s → (d : State) × (k : Option Context) × Sound json scope s d k
    unfolding initialize open_ledger
    begins-Sound s (made wrote e) =
        elim (Bool-cases (str_eq scope.gateway_id "" || str_eq scope.clock_id "")) [
          | inl f ↦ absurd (ground (arith, f, e))
          | inr f ↦ (
            first_state scope,
            none,
            created-Sound (json.marshal_state (first_state scope)) wrote s refl
                (ground (arith, f, e)),
          )
        ]
    begins-Sound s (found e) =
        let (d, p, v, q) = open_state-Valid json scope (json.decode_state s.file) s.ledger e in
        (d, s.ledger.context, record { valid = v; decodes = p; rests = inr q })

    file_opens :
        (d : State) (k : Option Context) (r : Checked (Store B)) → Reaches d k r → Recovers r
    unfolding Reaches
    file_opens d k (refused x) h = h
    file_opens d k (accepted t) (d', k', l, h) = (ledger_of d' k', open-Sound t d' k' h, h.rests)

    -- Whatever the clients ask of a ledger that the process made or opened, whatever the disk
    -- answers to each write, and however often the process restarts: no restart finds a file that it
    -- refuses, at the end the file opens, and a ledger that has not failed is the one that the file
    -- gives. The bytes that Marshal gives for a state are taken to decode to it.
    pub history-Recovers : (ops : List Op) (s : Store B) → Begins s → Recovers (history ops s)
    history-Recovers ops s b =
        let (d, k, h) = begins-Sound s b in
        file_opens d k (history ops s) (history-Reaches ops s d k h)
