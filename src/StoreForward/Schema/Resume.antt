-- ===== src/StoreForward/Schema/Resume.antt =====
-- An interrupted upgrade is finished by the next one.
use nexus_gateway.Prelude.{
  ℕ, zero, suc, ◌+◌, ◌-◌, ◌≤◌, ◌<◌, ◌≡◌, refl, Bool, true, false, none, some, ltb, ◌&&◌, arith,
  Option-cases, Bool-cases, inl, inr,
}
use nexus_gateway.StoreForward.Schema.{
  Schema, schema_version, newer, Statement, read_version, second_statement, stamp, apply_step,
  half_done, has_second, migration, migrate_from, migrate,
}

-- What a stamp promises of the tables and columns.
pub record IsStamped (s : Schema) : Type 0 where
  pub frames : 1 ≤ s.user_version → s.frames_table ≡ true
  pub cursor : 1 ≤ s.user_version → s.cursor_table ≡ true
  pub attributes : 2 ≤ s.user_version → s.attributes_column ≡ true
  pub frame : 3 ≤ s.user_version → s.frame_column ≡ true

-- The schema that this version of the program works with.
pub record IsCurrent (s : Schema) : Type 0 where
  pub version : s.user_version ≡ schema_version
  pub frames : s.frames_table ≡ true
  pub cursor : s.cursor_table ≡ true
  pub attributes : s.attributes_column ≡ true
  pub frame : s.frame_column ≡ true

abbrev pub never : ℕ → Statement → Bool
never v q = false

-- A step never fails by itself on a stamped schema, and earns its stamp.
migration_ok :
    (v : ℕ) (s : Schema)
    → v < 3
    → IsStamped s
    → s.user_version ≡ v
    → (t : Schema) × (migration v s ≡ some t)
      × IsStamped t
      × (t.user_version ≡ v)
      × IsStamped (record t { user_version = v + 1 })
unfolding migration
migration_ok zero s l h e =
    let t : Schema = record s { frames_table = true; cursor_table = true } in
    (t, refl, ground arith, e, ground arith)
migration_ok (suc zero) s l h e =
    let t : Schema = record s { attributes_column = true } in
    let tables = h.frames (omega arith) in
    let cursor = h.cursor (omega arith) in (t, ground arith, ground arith, e, ground arith)
migration_ok (suc (suc zero)) s l h e =
    let t : Schema = record s { frame_column = true } in
    let tables = h.frames (omega arith) in
    let cursor = h.cursor (omega arith) in
    let attributes = h.attributes (omega arith) in (t, ground arith, ground arith, e, ground arith)
migration_ok (suc (suc (suc v))) s l h e = absurd (omega arith)

-- Nor does a step that ends half way take anything from the stamp of before.
half_done-IsStamped :
    (v : ℕ) (s : Schema)
    → v < 3
    → IsStamped s
    → s.user_version ≡ v
    → IsStamped (half_done v s) × ((half_done v s).user_version ≤ 3)
unfolding half_done
half_done-IsStamped zero s l h e = (ground arith, omega arith)
half_done-IsStamped (suc v) s l h e = (h, omega arith)

migrate_from-IsStamped :
    (fails : ℕ → Statement → Bool) (k v : ℕ) (s : Schema)
    → v + k ≡ 3
    → IsStamped s
    → s.user_version ≡ v
    → IsStamped (migrate_from fails k v s).0 × ((migrate_from fails k v s).0.user_version ≤ 3)
unfolding migrate_from
migrate_from-IsStamped fails zero v s n h e = (h, omega arith)
migrate_from-IsStamped fails (suc k) v s n h e =
    let (t, ran, before, same, after) = migration_ok v s (omega arith) h e in
    elim (Bool-cases (fails v apply_step)) [
      | inl x ↦ rw x (h, omega arith)
      | inr x ↦ elim (Bool-cases (fails v second_statement && has_second v s)) [
        | inl z ↦ rw (x, z) (half_done-IsStamped v s (omega arith) h e)
        | inr z ↦
            rw (x, z, ran)
              (elim (Bool-cases (fails v stamp)) [
                | inl y ↦ rw y (before, omega arith)
                | inr y ↦ rw y (
                    migrate_from-IsStamped fails k (v + 1) (record t { user_version = v + 1 })
                      (omega arith) after refl)
              ])
      ]
    ]

migrate_from-never :
    (k v : ℕ) (s : Schema)
    → v + k ≡ 3
    → IsStamped s
    → s.user_version ≡ v
    → (t : Schema) × (migrate_from never k v s ≡ (t, none)) × IsStamped t × (t.user_version ≡ 3)
unfolding migrate_from
migrate_from-never zero v s n h e = (s, refl, h, omega arith)
migrate_from-never (suc k) v s n h e =
    let (t, ran, before, same, after) = migration_ok v s (omega arith) h e in
    let (u, rest, stamped, done) =
      migrate_from-never k (v + 1) (record t { user_version = v + 1 }) (omega arith) after refl in
    (u, rw ran rest, stamped, done)

IsStamped-IsCurrent : (t : Schema) → IsStamped t → t.user_version ≡ 3 → IsCurrent t
IsStamped-IsCurrent t h e = record {
  version = e;
  frames = h.frames (omega arith);
  cursor = h.cursor (omega arith);
  attributes = h.attributes (omega arith);
  frame = h.frame (omega arith);
}

migrate-finishes :
    (s : Schema)
    → IsStamped s
    → s.user_version ≤ 3
    → ((migrate never s).1 ≡ none) × IsCurrent (migrate never s).0
unfolding migrate
migrate-finishes s h l =
    let open_ : ltb schema_version s.user_version ≡ false = ground arith in
    let (t, ran, stamped, done) =
      migrate_from-never (schema_version - s.user_version) s.user_version s (omega arith) h refl in
    rw (open_, ran) (refl, IsStamped-IsCurrent t stamped done)

migrate_from_ok :
    (fails : ℕ → Statement → Bool) (k v : ℕ) (s : Schema)
    → s.user_version ≡ v
    → (migrate_from fails k v s).1 ≡ none
    → (migrate_from fails k v s).0.user_version ≡ v + k
unfolding migrate_from
migrate_from_ok fails zero v s e h = omega (arith, e)
migrate_from_ok fails (suc k) v s e h = elim (Bool-cases (fails v apply_step)) [
  | inl x ↦ absurd (ground (arith, h, x))
  | inr x ↦ elim (Bool-cases (fails v second_statement && has_second v s)) [
    | inl u ↦ absurd (ground (arith, h, x, u))
    | inr u ↦ elim (Option-cases (migration v s)) [
      | inl y ↦ absurd (ground (arith, h, x, u, y))
      | inr (t, y) ↦ elim (Bool-cases (fails v stamp)) [
        | inl z ↦ absurd (ground (arith, h, x, u, y, z))
        | inr z ↦
            rw (x, u, y, z)
              (omega (
                arith,
                migrate_from_ok fails k (v + 1) (record t { user_version = v + 1 }) refl
                    (rw (x, u, y, z) at h),
              ))
      ]
    ]
  ]
]

-- An upgrade that reports no error has ended with the current schema.
pub migrate_ok :
    (fails : ℕ → Statement → Bool) (s : Schema)
    → IsStamped s
    → s.user_version ≤ schema_version
    → (migrate fails s).1 ≡ none
    → IsCurrent (migrate fails s).0
unfolding migrate
migrate_ok fails s h l e =
    let open_ : ltb schema_version s.user_version ≡ false = ground arith in
    let k = schema_version - s.user_version in
    let (stamped, low) = migrate_from-IsStamped fails k s.user_version s (omega arith) h refl in
    elim (Bool-cases (fails 0 read_version)) [
      | inl r ↦ absurd (ground (arith, e, r))
      | inr r ↦
          let e' : (migrate_from fails k s.user_version s).1 ≡ none = rw (r, open_) at e in
          rw (r, open_)
            (IsStamped-IsCurrent (migrate_from fails k s.user_version s).0 stamped
              (omega (arith, l, migrate_from_ok fails k s.user_version s refl e')))
    ]

-- However an upgrade of a stamped file is interrupted, the next one that meets no failure ends with
-- every table and column and the newest stamp.
pub migrate_resumes :
    (fails : ℕ → Statement → Bool) (s : Schema)
    → IsStamped s
    → s.user_version ≤ schema_version
    → let t = (migrate fails s).0 in ((migrate never t).1 ≡ none) × IsCurrent (migrate never t).0
unfolding migrate
migrate_resumes fails s h l =
    let open_ : ltb schema_version s.user_version ≡ false = ground arith in
    let (stamped, low) =
      migrate_from-IsStamped fails (schema_version - s.user_version) s.user_version s (omega arith)
        h refl in
    elim (Bool-cases (fails 0 read_version)) [
      | inl r ↦ rw r (migrate-finishes s h l)
      | inr r ↦
          rw (r, open_)
            (migrate-finishes
              (migrate_from fails (schema_version - s.user_version) s.user_version s).0 stamped low)
    ]

-- A file of a newer program is refused where its stamp can be read, and left as it is.
pub migrate_newer :
    (fails : ℕ → Statement → Bool) (s : Schema)
    → fails 0 read_version ≡ false
    → schema_version < s.user_version
    → migrate fails s ≡ (s, some (newer s.user_version))
unfolding migrate
migrate_newer fails s r h = ground (arith, r)
