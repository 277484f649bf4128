-- ===== src/Dispatch/Repeats.antt =====
-- internal/dispatch/dispatcher.go: commands that arrive twice.
use nexus_gateway.Prelude.{
  String, Bool, true, false, Option, none, some, eq_iff, ◌≡◌, ◌⊎◌, arith, refl, Option-cases, inl,
  inr, ap, sym, subst, List, [], ◌∷◌, ◌∙◌, Bool-cases, str_eq, if◌then◌else◌,
}
use nexus_gateway.Prelude.Dict.{Dict, lookup, insert, lookup-insert}
use nexus_gateway.PointList.{Index}
use nexus_gateway.Dispatch.{
  ControlCommand, ControlResult, Bus, Dispatcher, execute, after_enter, refusal, enter,
}

lookup_other :
    (j k : String) (r : ControlResult) (m : Dict ControlResult)
    → str_eq j k ≡ false
    → lookup k (insert j r m) ≡ lookup k m
lookup_other j k r m e =
    lookup-insert j k r m ∙ ap (λ (b : Bool). if b then some r else lookup k m) e

lookup_own :
    (k : String) (r : ControlResult) (m : Dict ControlResult) → lookup k (insert k r m) ≡ some r
lookup_own k r m = ground (arith, lookup-insert k k r m, eq_iff k k)

module _ {F W : Type 0} (bus : Bus F W) where
  execute_known :
      (idx : Index) (cmd : ControlCommand F) (d : Dispatcher W) (r : ControlResult)
      → lookup cmd.control_id d.dedup ≡ some r
      → execute bus idx cmd d ≡ (d, r)
  unfolding execute
  execute_known idx cmd d r h = rw (h, execute) refl

  after_enter_recorded :
      (idx : Index) (cmd : ControlCommand F) (d : Dispatcher W) (q : W × Bool)
      → let (d', r) = after_enter bus idx cmd d q in
        ((q.1 ≡ false) × (d'.dedup ≡ d.dedup) × (r ≡ refusal cmd "configuration_paused"))
        ⊎ (lookup cmd.control_id d'.dedup ≡ some r)
  unfolding after_enter
  after_enter_recorded idx cmd d (w, false) = inl (refl, refl, refl)
  after_enter_recorded idx cmd d (w, true) = inr (lookup_own cmd.control_id _ d.dedup)

  after_enter_keeps :
      (idx : Index) (cmd : ControlCommand F) (d : Dispatcher W) (q : W × Bool) (k : String)
      (r : ControlResult)
      → lookup cmd.control_id d.dedup ≡ none
      → lookup k d.dedup ≡ some r
      → lookup k (after_enter bus idx cmd d q).0.dedup ≡ some r
  unfolding after_enter
  after_enter_keeps idx cmd d (w, false) k r absent h = h
  after_enter_keeps idx cmd d (w, true) k r absent h = elim (Bool-cases (str_eq cmd.control_id k)) [
    | inl e ↦
        let same : lookup k d.dedup ≡ none =
          subst (λ i. lookup i d.dedup ≡ none) ((eq_iff cmd.control_id k).0 e) absent in
        cc (h, same)
    | inr e ↦ lookup_other cmd.control_id k _ d.dedup e ∙ h
  ]

  fresh :
      (idx : Index) (cmd : ControlCommand F) (d : Dispatcher W)
      → lookup cmd.control_id d.dedup ≡ none
      → execute bus idx cmd d ≡ after_enter bus idx cmd d (enter bus d.world)
  unfolding execute
  fresh idx cmd d e =
      let q = after_enter bus idx cmd d (enter bus d.world) in
      ap (λ (o : Option ControlResult). elim o [ some r ↦ (d, r) | none ↦ q ]) e

  -- No command takes a recorded result away or replaces it.
  execute_keeps :
      (idx : Index) (cmd : ControlCommand F) (d : Dispatcher W) (k : String) (r : ControlResult)
      → lookup k d.dedup ≡ some r
      → lookup k (execute bus idx cmd d).0.dedup ≡ some r
  execute_keeps idx cmd d k r h = elim (Option-cases (lookup cmd.control_id d.dedup)) [
    | inr (s, e) ↦ rw (execute_known idx cmd d s e) h
    | inl e ↦ rw (fresh idx cmd d e) (after_enter_keeps idx cmd d (enter bus d.world) k r e h)
  ]

  -- Commands one after another, each under the point list of its time.
  unfoldable pub execute_all : List (Index × ControlCommand F) → Dispatcher W → Dispatcher W
  execute_all [] d = d
  execute_all ((idx, cmd) ∷ cmds) d = execute_all cmds (execute bus idx cmd d).0

  execute_all_keeps :
      (cmds : List (Index × ControlCommand F)) (d : Dispatcher W) (k : String) (r : ControlResult)
      → lookup k d.dedup ≡ some r
      → lookup k (execute_all cmds d).dedup ≡ some r
  unfolding execute_all
  execute_all_keeps [] d k r h = h
  execute_all_keeps ((idx, cmd) ∷ cmds) d k r h =
      execute_all_keeps cmds (execute bus idx cmd d).0 k r (execute_keeps idx cmd d k r h)

  -- A result is that of a paused gate, not recorded, or a command gets it again after the others.
  abbrev pub Repeats :
      Index
      → ControlCommand F
      → List (Index × ControlCommand F)
      → ControlCommand F
      → Dispatcher W
      → Dispatcher W × ControlResult
      → Type 0
  Repeats idx again others cmd d (d', r) =
      (((enter bus d.world).1 ≡ false)
        × (d'.dedup ≡ d.dedup)
        × (r ≡ refusal cmd "configuration_paused"))
      ⊎ (execute bus idx again (execute_all others d') ≡ (execute_all others d', r))

  repeated :
      (idx : Index) (again cmd : ControlCommand F) (others : List (Index × ControlCommand F))
      (d : Dispatcher W) (r : ControlResult)
      → again.control_id ≡ cmd.control_id
      → lookup cmd.control_id d.dedup ≡ some r
      → execute bus idx again (execute_all others d) ≡ (execute_all others d, r)
  repeated idx again cmd others d r same h =
      execute_known idx again (execute_all others d) r
        (rw same (execute_all_keeps others d cmd.control_id r h))

  -- Unless the admission gate refuses the command, which is then not recorded, a later command with
  -- the same control id, whatever else it asks, whatever the point list is then and whatever commands
  -- came in between, gets the same result, and neither the record nor the world outside changes.
  pub execute-Repeats :
      (idx idx' : Index) (cmd again : ControlCommand F) (others : List (Index × ControlCommand F))
      (d : Dispatcher W)
      → again.control_id ≡ cmd.control_id
      → Repeats idx' again others cmd d (execute bus idx cmd d)
  execute-Repeats idx idx' cmd again others d same =
      elim (Option-cases (lookup cmd.control_id d.dedup)) [
        | inr (r, e) ↦
            subst (Repeats idx' again others cmd d) (sym (execute_known idx cmd d r e))
              (inr (repeated idx' again cmd others d r same e))
        | inl e ↦
            let q = after_enter bus idx cmd d (enter bus d.world) in
            subst (Repeats idx' again others cmd d) (sym (fresh idx cmd d e))
              (elim (after_enter_recorded idx cmd d (enter bus d.world)) [
                | inl paused ↦ inl paused
                | inr stored ↦ inr (repeated idx' again cmd others q.0 q.1 same stored)
              ])
      ]
