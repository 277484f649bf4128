-- ===== src/RunContext/Opening.antt =====
-- internal/runcontext/context.go: which ledgers `Open` gives, and what a write of one leaves.
use nexus_gateway.Prelude.{
  ◌≡◌, ◌<◌, ◌⊎◌, inl, inr, refl, sym, subst, String, Bool, true, false, not, ◌||◌, Option, none,
  some, arith, Bool-cases, Option-cases, eq_iff, if◌then◌else◌,
}
use nexus_gateway.RunContext.{
  before, Scope, Context, Envelope, State, Ledger, LedgerError, Checked, refused, accepted, Json,
  Store, is_some, is_nought, is_invalid, receipt_after, header_ok, verify, opened, open_envelope,
  open_state, orphan_receipts, scope_mismatch, invalid_commit, invalid_apply,
}
use nexus_gateway.RunContext.Writing.{with_invalid}

abbrev pub ledger_of : State → Option Context → Ledger
ledger_of d k = record { failed = false; state = d; context = k }

abbrev pub at_rest : {B : Type 0} → State → Option Context → B → Store B
at_rest d k raw = record { ledger = ledger_of d k; file = raw }

-- A context that may stand where `a` stood.
abbrev pub After : Option Context → Option Context → Type 0
After none b = Unit
After (some a) none = ⊥
After (some a) (some b) = (a.generation < b.generation) ⊎ (a ≡ b)

pub After-refl : (a : Option Context) → After a a
After-refl none = tt
After-refl (some a) = inr refl

pub After-trans : (a b k : Option Context) → After a b → After b k → After a k
After-trans none b k h g = tt
After-trans (some a) none k h g = absurd h
After-trans (some a) (some b) none h g = absurd g
After-trans (some a) (some b) (some k) (inl h) (inl g) = inl (omega arith)
After-trans (some a) (some b) (some k) (inl h) (inr g) =
    inl (subst (λ (x : Context). a.generation < x.generation) g h)
After-trans (some a) (some b) (some k) (inr h) g =
    subst (λ (x : Context). After (some x) (some k)) (sym h) g

pub record Later (d : State) (k : Option Context) (d' : State) (k' : Option Context) : Type 0 where
  pub contexts : After k k'
  pub kept :
      (run : String) → is_invalid d.invalid_runs run ≡ true → is_invalid d'.invalid_runs run ≡ true

pub Later-refl : (d : State) (k : Option Context) → Later d k d k
Later-refl d k = record { contexts = After-refl k; kept = λ run h. h }

pub Later-trans :
    (d : State) (k : Option Context) (d' : State) (k' : Option Context) (d'' : State)
    (k'' : Option Context)
    → Later d k d' k'
    → Later d' k' d'' k''
    → Later d k d'' k''
Later-trans d k d' k' d'' k'' h g = record {
  contexts = After-trans k k' k'' h.contexts g.contexts;
  kept = λ run x. g.kept run (h.kept run x);
}

pub with_invalid_keeps :
    (run other : String) (runs : Option (String → Bool))
    → is_invalid runs other ≡ true
    → is_invalid (with_invalid run runs) other ≡ true
unfolding is_invalid with_invalid
with_invalid_keeps run other none h = cc h
with_invalid_keeps run other (some runs) h = ground arith

pub with_invalid_marks :
    (run : String) (runs : Option (String → Bool)) → is_invalid (with_invalid run runs) run ≡ true
unfolding is_invalid with_invalid
with_invalid_marks run none = ground (arith, eq_iff run run)
with_invalid_marks run (some runs) = ground (arith, eq_iff run run)

pub is_some-with_invalid :
    (run : String) (runs : Option (String → Bool)) → is_some (with_invalid run runs) ≡ true
unfolding with_invalid
is_some-with_invalid run none = refl
is_some-with_invalid run (some runs) = refl

module _ {B : Type 0} (json : Json B) where
  -- The envelope and the receipts of a state, and the context that they are of.
  pub data Holds (d : State) : Option Context → Type 0 where
    vacant :
        d.envelope ≡ none
        → is_nought d.committed_at.instant ≡ true
        → d.applied_at ≡ none
        → Holds d none
    holding :
        (k : Context) (e : Envelope)
        → d.envelope ≡ some e
        → verify json d.scope e ≡ accepted k
        → before d.committed_at k.issued_at ≡ false
        → before d.committed_at k.expires_at ≡ true
        → receipt_after d.committed_at k d.applied_at ≡ true
        → Holds d (some k)

  pub record Valid (scope : Scope) (d : State) (k : Option Context) : Type 0 where
    pub header : header_ok scope d ≡ true
    pub holds : Holds d k

  open-Holds :
      (d : State) (k : Option Context)
      → Holds d k
      → open_envelope json d d.envelope ≡ accepted (ledger_of d k)
  unfolding open_envelope opened
  open-Holds d _ (vacant e n a) = rw e (rw (n, a) refl)
  open-Holds d _ (holding k e v w i x r) = rw v (rw w (rw (i, x) (rw r refl)))

  pub open-Valid :
      (scope : Scope) (d : State) (k : Option Context)
      → Valid scope d k
      → open_state json scope (some d) ≡ accepted (ledger_of d k)
  unfolding open_state
  open-Valid scope d k v = rw v.header (open-Holds d k v.holds)

  -- What a ledger that Open gives is made of.
  Opens : State → Ledger → Type 0
  Opens d l = Holds d l.context × (l ≡ ledger_of d l.context)

  -- A guard that refuses was passed.
  passed :
      {A : Type 0} (a : Bool) (x : LedgerError) (r : Checked A) (l : A)
      → (if a then refused x else r) ≡ accepted l
      → (a ≡ false) × (r ≡ accepted l)
  passed true x r l h = cc h
  passed false x r l h = (refl, h)

  opened-Opens :
      (d : State) (e : Envelope) (r : Checked Context) (l : Ledger)
      → d.envelope ≡ some e
      → verify json d.scope e ≡ r
      → opened json d r ≡ accepted l
      → Opens d l
  unfolding opened Opens
  opened-Opens d e (refused x) l p v h = cc h
  opened-Opens d e (accepted k) l p v h =
      let last = accepted (ledger_of d (some k)) in
      let late = not (receipt_after d.committed_at k d.applied_at) in
      let (w, h') =
        passed (before d.committed_at k.issued_at || not (before d.committed_at k.expires_at))
          invalid_commit (if late then refused invalid_apply else last) l h in
      let (r, g) = passed late invalid_apply last l h' in
      subst (λ (m : Ledger). Opens d m) (cc g)
        (holding k e p v (ground (arith, w)) (ground (arith, w)) (ground (arith, r)), refl)

  open_envelope-Opens :
      (d : State) (o : Option Envelope) (l : Ledger)
      → d.envelope ≡ o
      → open_envelope json d o ≡ accepted l
      → Opens d l
  unfolding open_envelope Opens
  open_envelope-Opens d (some e) l p h = opened-Opens d e (verify json d.scope e) l p refl h
  open_envelope-Opens d none l p h =
      let (w, g) =
        passed (not (is_nought d.committed_at.instant) || is_some d.applied_at) orphan_receipts
          (accepted (ledger_of d none)) l h in
      elim (Option-cases d.applied_at) [
        | inl n ↦ subst (λ (m : Ledger). Opens d m) (cc g) (vacant p (ground (arith, w)) n, refl)
        | inr (a, n) ↦ absurd (ground (arith, w, n))
      ]

  pub open_state-Valid :
      (scope : Scope) (o : Option State) (l : Ledger)
      → open_state json scope o ≡ accepted l
      → (d : State) × (o ≡ some d) × Valid scope d l.context × (l ≡ ledger_of d l.context)
  unfolding open_state Opens
  open_state-Valid scope none l h = cc h
  open_state-Valid scope (some d) l h = elim (Bool-cases (header_ok scope d)) [
    | inr e ↦ absurd (ground (arith, e, h))
    | inl e ↦
        let g =
          subst
            (λ (b : Bool).
              (if b then open_envelope json d d.envelope else refused scope_mismatch) ≡ accepted l)
            e h in
        let (holds, shape) = open_envelope-Opens d d.envelope l refl g in
        (d, refl, record { header = e; holds = holds }, shape)
  ]

  -- The store of a ledger that is in use, or that failed and whose file can be opened.
  pub record Sound (scope : Scope) (s : Store B) (d : State) (k : Option Context) : Type 0 where
    pub valid : Valid scope d k
    pub decodes : json.decode_state s.file ≡ some d
    pub rests : (s.ledger.failed ≡ true) ⊎ (s.ledger ≡ ledger_of d k)

  -- What an operation leaves of a ledger in use.
  abbrev pub Moved : Scope → State → Option Context → Store B → Type 0
  Moved scope d k t = (d' : State) × (k' : Option Context) × Later d k d' k' × Sound scope t d' k'
