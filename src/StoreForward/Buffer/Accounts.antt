-- ===== src/StoreForward/Buffer/Accounts.antt =====
-- What holds of the buffer between two writes, and what each write adds up to.
use nexus_gateway.Prelude.{
  ℕ, suc, ◌+◌, ◌-◌, ◌≤◌, ◌<◌, ◌≡◌, Bool, List, arith, length, drop, count_if, Bool-cases, inl, inr,
  ◌⊎◌, length-append, filter-append, none, some, Option, length-drop, String, All-append,
  Option-cases,
}
use nexus_gateway.Frame.{TelemetryFrame}
use nexus_gateway.StoreForward.Buffer.{
  Db, Buffer, Codec, WriteStep, WriteError, aborted, committed, is_acked, is_beyond, delete_oldest,
  evicted_count, lost_count, statements, transact, finish_write, write, insert_row, cursor_or_zero,
  attributes_column, depth, begin, exec_insert, count_rows, exec_delete, commit, sqlite,
  marshal_frame, encode_attrs,
}
use nexus_gateway.StoreForward.Buffer.Order.{
  Ascends, UpTo, Ascends-append, Ascends-drop, UpTo-drop, UpTo-weaken, delete_oldest-drop,
}
use nexus_gateway.StoreForward.Buffer.Eviction.{acked-drop, beyond-drop}

module _ {F : Type 0} where
  -- The tables: keys rise, none is past the counter, and the cursor is not either.
  pub record IsOrdered (db : Db F) : Type 0 where
    pub ascending : Ascends 0 db.rows
    pub up_to : UpTo db.last_seq db.rows
    pub behind : cursor_or_zero db.cursor ≤ db.last_seq

  pub record IsValid (b : Buffer F) : Type 0 where
    pub ordered : IsOrdered b.db
    pub bounded : length b.db.rows ≤ b.capacity
    pub positive : 0 < b.capacity

  unfoldable pub acked_rows : Buffer F → ℕ
  acked_rows b = count_if (is_acked (cursor_or_zero b.db.cursor)) b.db.rows

  module _ (c : Codec F) (f : TelemetryFrame F) (wire : List ℕ) (attrs : Option String) where
    pub insert_row-IsOrdered : (db : Db F) → IsOrdered db → IsOrdered (insert_row c f wire attrs db)
    unfolding insert_row
    insert_row-IsOrdered db v = record {
      ascending =
          Ascends-append 0 db.last_seq db.rows _ v.ascending v.up_to (omega arith) (omega arith);
      up_to =
          All-append _ db.rows _
            (UpTo-weaken db.last_seq (suc db.last_seq) db.rows (omega arith) v.up_to) (omega arith);
      behind = omega arith;
    }

    -- The new row is the one beyond the cursor that the tables gain.
    insert_row_counts :
        (db : Db F)
        → IsOrdered db
        → let c' = cursor_or_zero db.cursor in
          (length (insert_row c f wire attrs db).rows ≡ length db.rows + 1)
          × (count_if (is_beyond c') (insert_row c f wire attrs db).rows
              ≡ count_if (is_beyond c') db.rows + 1)
          × (count_if (is_acked c') (insert_row c f wire attrs db).rows
              ≡ count_if (is_acked c') db.rows)
    unfolding insert_row
    insert_row_counts db v =
        let c' = cursor_or_zero db.cursor in
        (
          omega (arith, length-append {0} db.rows),
          rw filter-append (rw length-append (ground arith)),
          rw filter-append (rw length-append (ground arith)),
        )

  module _ (cap : ℕ) (db : Db F) (v : IsOrdered db) where
    kept : delete_oldest cap db.rows ≡ drop (length db.rows - cap) db.rows
    kept = delete_oldest-drop cap 0 db.rows v.ascending

    evict-IsOrdered : IsOrdered (record db { rows = delete_oldest cap db.rows })
    evict-IsOrdered = rw kept (record {
      ascending = Ascends-drop (length db.rows - cap) 0 db.rows v.ascending;
      up_to = UpTo-drop (length db.rows - cap) db.last_seq db.rows v.up_to;
      behind = v.behind;
    })

    evict_bounded : length (delete_oldest cap db.rows) ≤ cap
    evict_bounded = rw kept (omega (arith, length-drop (length db.rows - cap) db.rows))

    -- Each counter is the number of rows of its kind that the eviction removes.
    evict_counts :
        let c' = cursor_or_zero db.cursor in
        (count_if (is_acked c') (delete_oldest cap db.rows) + evicted_count cap db
          ≡ count_if (is_acked c') db.rows)
        × (count_if (is_beyond c') (delete_oldest cap db.rows) + lost_count cap db
            ≡ count_if (is_beyond c') db.rows)
    unfolding lost_count
    evict_counts =
        let c' = cursor_or_zero db.cursor in
        let n = length db.rows - cap in
        rw kept (
          ground (arith, acked-drop c' n 0 db.rows v.ascending),
          ground (arith, beyond-drop c' n 0 db.rows v.ascending (omega arith)),
        )

  statements_ok :
      (fails : WriteStep → Bool) (cap : ℕ) (db : Db F)
      → ((e : WriteError) × (statements fails cap db ≡ aborted e))
        ⊎ (statements fails cap db
            ≡ committed
                (record db { rows = delete_oldest cap db.rows })
                (evicted_count cap db)
                (lost_count cap db))
  unfolding statements
  statements_ok fails cap db = elim (Bool-cases (fails exec_insert)) [
    | inl e ↦ inl (sqlite exec_insert, rw e)
    | inr e ↦ elim (Bool-cases (fails count_rows)) [
      | inl e₁ ↦ inl (sqlite count_rows, rw (e, e₁))
      | inr e₁ ↦ elim (Bool-cases (fails exec_delete)) [
        | inl e₂ ↦ inl (sqlite exec_delete, rw (e, e₁, e₂))
        | inr e₂ ↦ elim (Bool-cases (fails commit)) [
          | inl e₃ ↦ inl (sqlite commit, rw (e, e₁, e₂, e₃))
          | inr e₃ ↦ inr (rw (e, e₁, e₂, e₃))
        ]
      ]
    ]
  ]

  module _ (c : Codec F) (fails : WriteStep → Bool) (f : TelemetryFrame F) (b : Buffer F) where
    -- What a successful `Write` leaves.
    unfoldable pub after_write : List ℕ → Option String → Buffer F
    after_write wire attrs =
        let db = insert_row c f wire attrs b.db in
        (finish_write b (
          committed (record db { rows = delete_oldest b.capacity db.rows })
            (evicted_count b.capacity db) (lost_count b.capacity db))).0

    -- A write fails and changes nothing, or commits the new row and the eviction together.
    pub write_cases :
        ((e : WriteError) × (write c fails f b ≡ (b, some e)))
        ⊎ ((wire : List ℕ) × (attrs : Option String) × (c.marshal f ≡ some wire)
            × (attributes_column c f.attributes ≡ some attrs)
            × (write c fails f b ≡ (after_write wire attrs, none)))
    unfolding write after_write
    write_cases = elim (Option-cases (c.marshal f)) [
      | inl e ↦ inl (marshal_frame, rw (e, transact))
      | inr (wire, e) ↦ elim (Bool-cases (fails begin)) [
        | inl e₁ ↦ inl (sqlite begin, rw (e, transact, e₁))
        | inr e₁ ↦ elim (Option-cases (attributes_column c f.attributes)) [
          | inl e₂ ↦ inl (encode_attrs, rw (e, transact, e₁, e₂))
          | inr (attrs, e₂) ↦
              elim (statements_ok fails b.capacity (insert_row c f wire attrs b.db)) [
                | inl (x, e₃) ↦ inl (x, rw (e, transact, e₁, e₂, e₃))
                | inr e₃ ↦ inr (wire, attrs, e, e₂, rw (e, transact, e₁, e₂, e₃))
              ]
        ]
      ]
    ]

    pub after_write-IsValid :
        (wire : List ℕ) (attrs : Option String) → IsValid b → IsValid (after_write wire attrs)
    unfolding after_write finish_write
    after_write-IsValid wire attrs v =
        let db = insert_row c f wire attrs b.db in
        let o = insert_row-IsOrdered c f wire attrs b.db v.ordered in
        record {
          ordered = evict-IsOrdered b.capacity db o;
          bounded = evict_bounded b.capacity db o;
          positive = v.positive;
        }

    pub after_write_accounts :
        (wire : List ℕ) (attrs : Option String)
        → IsValid b
        → let b' = after_write wire attrs in
          (depth b' + b'.lost_unsent ≡ depth b + b.lost_unsent + 1)
          × (acked_rows b' + b'.evicted_sent ≡ acked_rows b + b.evicted_sent)
          × (b'.written ≡ b.written + 1)
    unfolding after_write finish_write depth acked_rows insert_row
    after_write_accounts wire attrs v =
        let db = insert_row c f wire attrs b.db in
        let o = insert_row-IsOrdered c f wire attrs b.db v.ordered in
        let evict = evict_counts b.capacity db o in
        let gain = insert_row_counts c f wire attrs b.db v.ordered in omega (arith, evict, gain)
