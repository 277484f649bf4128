-- ===== src/Dispatch/Guards.antt =====
-- internal/dispatch/dispatcher.go: which commands reach a connector.
use nexus_gateway.Prelude.{
  Bool, true, false, str_eq, eq_iff, ◌≡◌, ◌≢◌, ◌⊎◌, arith, Bool-cases, inl, inr,
}
use nexus_gateway.Prelude.Int.{pos, ◌≤ℤ◌}
use nexus_gateway.PointList.{Control}
use nexus_gateway.Dispatch.{ControlCommand, Write, allowed, check, check_release}

-- What a release must satisfy: it relinquishes a priority from 0 to 16 of a writable BACnet point.
pub record Releases {F : Type 0} (is_one : F → Bool) (c : Control) (cmd : ControlCommand F)
    : Type 0 where
  pub one : is_one cmd.present_value ≡ true
  pub lowest : pos 0 ≤ℤ cmd.priority
  pub highest : cmd.priority ≤ℤ pos 16
  pub exists : c.target.point_id ≢ ""
  pub physical : c.target.release_of ≡ ""
  pub writable : c.target.writable ≡ true
  pub bacnet : c.target.protocol ≡ "bacnet"
  pub connector : c.target.connector_id ≢ ""
  pub local : c.target.local_id ≢ ""

module _ {F : Type 0} (is_one : F → Bool) (c : Control) (cmd : ControlCommand F) where
  check_release_sound :
      (x : Write)
      → check_release is_one c cmd ≡ allowed x
      → Releases is_one c cmd × (x ≡ record { entry = c.target; release = true })
  unfolding check_release
  check_release_sound x h =
      let (one, lowest, highest) : (is_one cmd.present_value ≡ true)
          × (pos 0 ≤ℤ cmd.priority)
          × (cmd.priority ≤ℤ pos 16) =
        ground (arith, h) in
      let (exists, physical, writable) : (c.target.point_id ≢ "")
          × (c.target.release_of ≡ "")
          × (c.target.writable ≡ true) =
        ground (arith, h, eq_iff c.target.point_id "", eq_iff c.target.release_of "") in
      let (bacnet, connector, local) : (c.target.protocol ≡ "bacnet")
          × (c.target.connector_id ≢ "")
          × (c.target.local_id ≢ "") =
        ground (
          arith,
          h,
          eq_iff c.target.protocol "bacnet",
          eq_iff c.target.connector_id "",
          eq_iff c.target.local_id "",
        ) in
      (
        record {
          one = one;
          lowest = lowest;
          highest = highest;
          exists = exists;
          physical = physical;
          writable = writable;
          bacnet = bacnet;
          connector = connector;
          local = local;
        },
        ground (arith, h),
      )

  -- A command that passes the checks is a plain write to a known, writable point that is no release
  -- point, or a release through a known, writable release point whose priority, value and target
  -- are in order; the write goes to the point itself, or to the release point's target.
  pub check_sound :
      (x : Write)
      → check is_one c cmd ≡ allowed x
      → (c.found ≡ true)
        × (c.entry.writable ≡ true)
        × (((c.entry.release_of ≡ "") × (x ≡ record { entry = c.entry; release = false }))
            ⊎ ((c.entry.release_of ≢ "")
                × Releases is_one c cmd
                × (x ≡ record { entry = c.target; release = true })))
  unfolding check
  check_sound x h = elim (Bool-cases (str_eq c.entry.release_of "")) [
    | inl e ↦ ground (arith, h, e, eq_iff c.entry.release_of "")
    | inr e ↦
        let (found, writable, rest) : (c.found ≡ true)
            × (c.entry.writable ≡ true)
            × (check_release is_one c cmd ≡ allowed x) =
          ground (arith, h, e) in
        let (releases, at) = check_release_sound x rest in
        (found, writable, inr (ground (arith, e, eq_iff c.entry.release_of ""), releases, at))
  ]
