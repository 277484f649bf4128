-- ===== src/RunContext/Steps.antt =====
-- internal/runcontext/context.go: each operation keeps a ledger whose file can be opened.
use nexus_gateway.Prelude.{
  ◌≡◌, inl, inr, refl, sym, subst, String, Bool, true, false, not, ◌||◌, ltb, ◌==◌, Option, none,
  some, arith, Bool-cases, str_eq,
}
use nexus_gateway.RunContext.{
  Time, before, Scope, Context, Envelope, State, Checked, refused, accepted, Json, Store, is_some,
  is_invalid, header_ok, verify,
}
use nexus_gateway.RunContext.Writing.{
  Written, unwritten, renamed, synced, with_invalid, write, persist, installed, committed, install,
  commit_over, commit_verified, commit, apply_to, mark_invalid, invalidate_held,
  invalidate_verified, bytes_equal,
}
use nexus_gateway.RunContext.Opening.{
  at_rest, After, After-refl, Later, Later-refl, with_invalid_keeps, is_some-with_invalid, Holds,
  vacant, holding, Valid, Sound, Moved,
}

module _ {B : Type 0} (json : Json B) (scope : Scope) where
  -- Marshal's bytes are read back.
  abbrev pub ReadsBack : Type 0
  ReadsBack =
      (d : State) (raw : B) → json.marshal_state d ≡ some raw → json.decode_state raw ≡ some d

  stays-Moved :
      (d : State) (k : Option Context) (t : Store B)
      → Sound json scope t d k
      → Moved json scope d k t
  stays-Moved d k t h = (d, k, Later-refl d k, h)

  rest-Sound :
      (d : State) (k : Option Context) (raw : B)
      → json.decode_state raw ≡ some d
      → Valid json scope d k
      → Sound json scope (at_rest d k raw) d k
  rest-Sound d k raw e v = record { valid = v; decodes = e; rests = inr refl }

  write-Moved :
      (d : State) (k : Option Context) (raw : B) (d' : State) (o : Option B) (out : Written)
      → json.decode_state raw ≡ some d
      → Valid json scope d k
      → Valid json scope d' k
      → Later d k d' k
      → ((raw' : B) → o ≡ some raw' → json.decode_state raw' ≡ some d')
      → Moved json scope d k (write json d' o out (at_rest d k raw)).0
  unfolding write
  write-Moved d k raw d' none out e v v' l back =
      (d, k, Later-refl d k, record { valid = v; decodes = e; rests = inl refl })
  write-Moved d k raw d' (some raw') unwritten e v v' l back =
      (d, k, Later-refl d k, record { valid = v; decodes = e; rests = inl refl })
  write-Moved d k raw d' (some raw') renamed e v v' l back =
      (d', k, l, record { valid = v'; decodes = back raw' refl; rests = inl refl })
  write-Moved d k raw d' (some raw') synced e v v' l back =
      (d', k, l, record { valid = v'; decodes = back raw' refl; rests = inr refl })

  installed-Moved :
      (d : State) (k : Option Context) (raw : B) (d' : State) (k' : Context) (o : Option B)
      (out : Written)
      → json.decode_state raw ≡ some d
      → Valid json scope d k
      → Valid json scope d' (some k')
      → Later d k d' (some k')
      → ((raw' : B) → o ≡ some raw' → json.decode_state raw' ≡ some d')
      → Moved json scope d k (installed json k' (write json d' o out (at_rest d k raw))).0
  unfolding write installed
  installed-Moved d k raw d' k' none out e v v' l back =
      (d, k, Later-refl d k, record { valid = v; decodes = e; rests = inl refl })
  installed-Moved d k raw d' k' (some raw') unwritten e v v' l back =
      (d, k, Later-refl d k, record { valid = v; decodes = e; rests = inl refl })
  installed-Moved d k raw d' k' (some raw') renamed e v v' l back =
      (d', some k', l, record { valid = v'; decodes = back raw' refl; rests = inl refl })
  installed-Moved d k raw d' k' (some raw') synced e v v' l back =
      (d', some k', l, record { valid = v'; decodes = back raw' refl; rests = inr refl })

module _ {B : Type 0} (json : Json B) where
  -- The three changes of a state.
  marked-Holds :
      (d : State) (k : Option Context) (runs : Option (String → Bool))
      → Holds json d k
      → Holds json (record d { invalid_runs = runs }) k
  marked-Holds d _ runs (vacant p n a) = vacant p n a
  marked-Holds d _ runs (holding k e p v w x r) = holding k e p v w x r

  applied-Holds :
      (d : State) (k : Context) (at : Time)
      → Holds json d (some k)
      → before at d.committed_at ≡ false
      → before at k.expires_at ≡ true
      → Holds json (record d { applied_at = some at }) (some k)
  applied-Holds d k at (holding _ e p v w x r) c h = holding k e p v w x (rw (c, h) refl)

  committed-Holds :
      (d : State) (e : Envelope) (k : Context) (at : Time)
      → verify json d.scope e ≡ accepted k
      → before at k.issued_at ≡ false
      → before at k.expires_at ≡ true
      → Holds json (committed e k at d) (some k)
  unfolding committed
  committed-Holds d e k at v w x = holding k e refl v w x refl

committed-header :
    (scope : Scope) (d : State) (e : Envelope) (k : Context) (at : Time)
    → header_ok scope d ≡ true
    → header_ok scope (committed e k at d) ≡ true
unfolding committed
committed-header scope d e k at h = ground (arith, is_some-with_invalid k.run_id d.invalid_runs)

committed-kept :
    (d : State) (e : Envelope) (k : Context) (at : Time) (run : String)
    → is_invalid d.invalid_runs run ≡ true
    → is_invalid (committed e k at d).invalid_runs run ≡ true
unfolding committed
committed-kept d e k at run h = elim (Bool-cases (str_eq k.status "revoked")) [
  | inl r ↦ rw r (with_invalid_keeps k.run_id run d.invalid_runs h)
  | inr r ↦ rw r h
]

module _ {B : Type 0} (json : Json B) (scope : Scope) (back : ReadsBack json scope) (d : State)
    (k : Option Context) (raw : B) (e : json.decode_state raw ≡ some d)
    (v : Valid json scope d k) where
  pub rest_Moved : Moved json scope d k (at_rest d k raw)
  rest_Moved = stays-Moved json scope d k _ (rest-Sound json scope d k raw e v)

  -- A write of the map of invalid runs.
  mark_invalid-Moved :
      (run : String) (out : Written)
      → Moved json scope d k (mark_invalid json run out (at_rest d k raw)).0
  unfolding mark_invalid persist
  mark_invalid-Moved run out =
      let d' = record d { invalid_runs = with_invalid run d.invalid_runs } in
      write-Moved json scope d k raw d' (json.marshal_state d') out e v
        (record {
          header = ground (arith, v.header, is_some-with_invalid run d.invalid_runs);
          holds = marked-Holds json d k (with_invalid run d.invalid_runs) v.holds;
        })
        (record {
          contexts = After-refl k;
          kept = λ other h. with_invalid_keeps run other d.invalid_runs h;
        })
        (back d')

  install-Moved :
      (envelope : Envelope) (k' : Context) (at : Time) (out : Written)
      → verify json d.scope envelope ≡ accepted k'
      → before at k'.issued_at ≡ false
      → before at k'.expires_at ≡ true
      → After k (some k')
      → Moved json scope d k (install json envelope k' at out (at_rest d k raw)).0
  unfolding install persist
  install-Moved envelope k' at out h w x later =
      let d' = committed envelope k' at d in
      installed-Moved json scope d k raw d' k' (json.marshal_state d') out e v
        (record {
          header = committed-header scope d envelope k' at v.header;
          holds = committed-Holds json d envelope k' at h w x;
        })
        (record { contexts = later; kept = committed-kept d envelope k' at }) (back d')

  commit_over-Moved :
      (o : Option Context) (envelope : Envelope) (k' : Context) (at : Time) (out : Written)
      → k ≡ o
      → verify json d.scope envelope ≡ accepted k'
      → before at k'.issued_at ≡ false
      → before at k'.expires_at ≡ true
      → Moved json scope d k (commit_over json o envelope k' at out (at_rest d k raw)).0
  unfolding commit_over
  commit_over-Moved none envelope k' at out p h w x = elim (Bool-cases (k'.generation == 1)) [
    | inr g ↦ rw g rest_Moved
    | inl g ↦ rw g (
        install-Moved envelope k' at out h w x
          (subst (λ (y : Option Context). After y (some k')) (sym p) tt))
  ]
  commit_over-Moved (some old) envelope k' at out p h w x =
      elim (Bool-cases (ltb k'.generation old.generation)) [
        | inl f ↦ rw f rest_Moved
        | inr f ↦ elim (Bool-cases (k'.generation == old.generation)) [
          | inl g ↦
              rw (f, g)
                (elim (Bool-cases
                  (bytes_equal (json.marshal_context old) (json.marshal_context k'))) [
                    | inl b ↦ rw b rest_Moved
                    | inr b ↦ rw b rest_Moved
                  ])
          | inr g ↦
              rw (f, g)
                (install-Moved envelope k' at out h w x (
                  subst (λ (y : Option Context). After y (some k')) (sym p)
                    (inl (ground (arith, f, g)))))
        ]
      ]

  commit_verified-Moved :
      (r : Checked Context) (envelope : Envelope) (at : Time) (out : Written)
      → verify json d.scope envelope ≡ r
      → Moved json scope d k (commit_verified json r envelope at out (at_rest d k raw)).0
  unfolding commit_verified
  commit_verified-Moved (refused x) envelope at out p = rest_Moved
  commit_verified-Moved (accepted k') envelope at out p =
      elim (Bool-cases (before at k'.issued_at || not (before at k'.expires_at))) [
        | inl f ↦ rw f rest_Moved
        | inr f ↦
            rw f (
              commit_over-Moved k envelope k' at out refl p (ground (arith, f)) (ground (arith, f)))
      ]

  pub commit-Moved :
      (envelope : Envelope) (at : Time) (out : Written)
      → Moved json scope d k (commit json envelope at out (at_rest d k raw)).0
  unfolding commit
  commit-Moved envelope at out =
      commit_verified-Moved (verify json d.scope envelope) envelope at out refl

  pub invalidate_held-Moved :
      (o : Option Context) (run : String) (out : Written)
      → Moved json scope d k (invalidate_held json o run out (at_rest d k raw)).0
  unfolding invalidate_held
  invalidate_held-Moved none run out = rest_Moved
  invalidate_held-Moved (some h) run out = elim (Bool-cases (str_eq run h.run_id)) [
    | inl f ↦ rw f (mark_invalid-Moved run out)
    | inr f ↦ rw f rest_Moved
  ]

  pub invalidate_verified-Moved :
      (o : Option Context) (r : Checked Context) (out : Written)
      → Moved json scope d k (invalidate_verified json o r out (at_rest d k raw)).0
  unfolding invalidate_verified
  invalidate_verified-Moved none r out = rest_Moved
  invalidate_verified-Moved (some h) (refused x) out = rest_Moved
  invalidate_verified-Moved (some h) (accepted k') out =
      elim (Bool-cases (ltb h.generation k'.generation)) [
        | inl f ↦ rw f rest_Moved
        | inr f ↦ rw f (mark_invalid-Moved k'.run_id out)
      ]

  pub apply_to-Moved :
      (o : Option Context) (at : Time) (out : Written)
      → k ≡ o
      → Moved json scope d k (apply_to json o at out (at_rest d k raw)).0
  unfolding apply_to persist
  apply_to-Moved none at out p = rest_Moved
  apply_to-Moved (some h) at out p =
      elim (Bool-cases (before at d.committed_at || not (before at h.expires_at))) [
        | inl f ↦ rw f rest_Moved
        | inr f ↦ elim (Bool-cases (is_some d.applied_at)) [
          | inl g ↦ rw (f, g) rest_Moved
          | inr g ↦
              let d' = record d { applied_at = some at } in
              let holds =
                subst (λ (y : Option Context). Holds json d' y) (sym p)
                  (applied-Holds json d h at
                    (subst (λ (y : Option Context). Holds json d y) p v.holds) (ground (arith, f))
                    (ground (arith, f))) in
              rw (f, g)
                (write-Moved json scope d k raw d' (json.marshal_state d') out e v
                  (record { header = v.header; holds = holds })
                  (record { contexts = After-refl k; kept = λ run x. x }) (back d'))
        ]
      ]
