-- ===== src/StoreForward/Buffer/Reading.antt =====
-- What `ReadBatch` returns, and the round trip of a frame through the buffer.
use nexus_gateway.Prelude.{
  ℕ, zero, suc, ◌-◌, ◌≤◌, ◌<◌, ◌≡◌, ◌≢◌, refl, ap, Bool, false, List, [], ◌∷◌, ◌++◌, Option, none,
  some, arith, length, drop, filter, inl, inr, String, filter-append, length-append, take-nil,
}
use nexus_gateway.Frame.{TelemetryFrame}
use nexus_gateway.StoreForward.Buffer.{
  Row, Buffer, Codec, WriteStep, write, is_beyond, read_batch, decode_row, decode_rows, insert_row,
  new_row, finish_write,
}
use nexus_gateway.StoreForward.Buffer.Order.{UpTo, UpTo-drop, delete_oldest-drop}
use nexus_gateway.StoreForward.Buffer.Accounts.{
  IsValid, write_cases, after_write, insert_row-IsOrdered,
}

module _ {F : Type 0} where
  beyond_none : (c : ℕ) (rs : List (Row F)) → UpTo c rs → filter (is_beyond c) rs ≡ []
  beyond_none c [] u = refl
  beyond_none c (r ∷ rs) u = ground (arith, beyond_none c rs u.1)

  drop-append_one :
      (n : ℕ) (rs : List (Row F)) (r : Row F)
      → n ≤ length rs
      → drop n (rs ++ r ∷ []) ≡ drop n rs ++ r ∷ []
  drop-append_one zero rs r h = refl
  drop-append_one (suc n) [] r h = absurd (omega arith)
  drop-append_one (suc n) (x ∷ rs) r h = drop-append_one n rs r (omega arith)

  -- Beyond a cursor that no older row passes, only the last row is selected.
  select_last :
      (c n : ℕ) (rs : List (Row F)) (r : Row F)
      → UpTo c rs
      → c < r.seq
      → n ≤ length rs
      → filter (is_beyond c) (drop n (rs ++ r ∷ [])) ≡ r ∷ []
  select_last c n rs r u h k =
      rw (drop-append_one n rs r k, filter-append, beyond_none c (drop n rs) (UpTo-drop n c rs u))
        (ground arith)

  -- The codec reads back what it wrote, and writes some bytes.
  pub record RoundTrips (c : Codec F) (f : TelemetryFrame F) : Type 0 where
    pub decodes : (wire : List ℕ) → c.marshal f ≡ some wire → c.unmarshal wire ≡ some f
    pub nonempty : (wire : List ℕ) → c.marshal f ≡ some wire → wire ≢ []

  module _ (c : Codec F) (f : TelemetryFrame F) where
    -- The row that `Write` inserts decodes to the frame.
    decode_new :
        (wire : List ℕ) (attrs : Option String) (r : Row F)
        → RoundTrips c f
        → c.marshal f ≡ some wire
        → r.frame ≡ some wire
        → decode_row c r ≡ some (r.seq, f)
    unfolding decode_row
    decode_new [] attrs r codec e h = absurd (codec.nonempty [] e refl)
    decode_new (x ∷ xs) attrs r codec e h = rw (h, decode_row, codec.decodes (x ∷ xs) e)

    select_new :
        (fails : WriteStep → Bool) (wire : List ℕ) (attrs : Option String) (b : Buffer F)
        → IsValid b
        → filter (is_beyond b.db.last_seq) (after_write c fails f b wire attrs).db.rows
          ≡ new_row c f wire attrs (suc b.db.last_seq) ∷ []
    unfolding after_write finish_write insert_row
    select_new fails wire attrs b v =
        let r = new_row c f wire attrs (suc b.db.last_seq) in
        let o = insert_row-IsOrdered c f wire attrs b.db v.ordered in
        let few : length (b.db.rows ++ r ∷ []) - b.capacity ≤ length b.db.rows =
          omega (arith, length-append {0} b.db.rows (r ∷ []), v.positive) in
        rw (delete_oldest-drop b.capacity 0 (b.db.rows ++ r ∷ []) o.ascending)
          (select_last b.db.last_seq _ b.db.rows r v.ordered.up_to (omega arith) few)

  -- Where the codec round-trips `f`: after a successful write of `f` to a valid buffer, reading
  -- beyond the last key given out before it returns `f` alone, value and attributes included, under
  -- the next key.
  pub read_batch-write :
      (c : Codec F) (fails : WriteStep → Bool) (f : TelemetryFrame F) (b : Buffer F) (limit : ℕ)
      → IsValid b
      → RoundTrips c f
      → (write c fails f b).1 ≡ none
      → read_batch c false b.db.last_seq (suc limit) (write c fails f b).0
        ≡ some ((suc b.db.last_seq, f) ∷ [])
  unfolding read_batch
  read_batch-write c fails f b limit v codec ok = elim (write_cases c fails f b) [
    | inl (x, k) ↦ cc (ap (λ (r : Buffer F × Option _). r.1) k)
    | inr (wire, attrs, encoded, _, k) ↦
        rw (k, select_new c f fails wire attrs b v)
          (rw (
            decode_new c f wire attrs (new_row c f wire attrs (suc b.db.last_seq)) codec encoded
                refl,
            decode_rows,
            take-nil limit,
          ))
  ]
