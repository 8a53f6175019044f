-- ===== src/Programs/ShmTransfer/Turns.antt =====
-- Every step of a transfer through shared memory keeps the invariant.
use my_notes.Common.{
  ◌≤◌, ◌≢◌, ℕ, ◌+◌, ◌≡◌, refl, sym, ap, ◌∙◌, inl, inr, Bool, true, false, Bool-cases, ◌||◌, ◌++◌,
  append_assoc, append-nil, Bytes, leb, arith,
}
use my_notes.Programs.ShmTransfer.{
  Writer, after_test, writer_done, writer_waiting, writer_reading, writer_releasing, writer_testing,
  writer_last, writer_failed, Reader, reader_waiting, reader_copying, reader_giving,
  reader_finishing, reader_done, reader_failed, System, later_blocks, at_end, writer_reserve,
  writer_read, writer_release, writer_test, writer_end, reader_reserve, reader_copy, reader_give,
  Step, writer_reserves, writer_reads, writer_releases, writer_tests, writer_ends, writer_fails,
  reader_reserves, reader_copies, reader_gives, reader_finishes, write_fails,
}
use my_notes.Programs.ShmTransfer.Invariant.{
  concat, writer_turn, reader_turn, writer_fresh, reader_fresh, fresh_bytes, has_finished,
  has_failed, Transfers, Goes, concat-next, next_block-end, later_blocks-All, at_end_lem,
  after_copy-facts, after_test-facts, idle_writer, idle_reader,
}

module _ (all : Bytes) (s : System) (fresh : Bool) (rest : Bytes)
    (h : Transfers all s fresh rest) where
  -- The writer goes on, with other values of the semaphores.
  writer-Goes :
      (w : Writer) (n m : ℕ)
      → (writer_fresh w || (leb 1 m || reader_fresh s.reader)) ≡ fresh
      → n + m + writer_turn w + reader_turn s.reader ≤ 1
      → s.writer ≢ writer_failed
      → Goes all (record s { writer = w; write_sem = n; read_sem = m })
  writer-Goes w n m same one sound = (
    fresh,
    rest,
    record {
      is = same;
      tokens = one;
      content = h.content;
      begins = h.begins;
      eof = h.eof;
      finished = h.finished;
      source = λ ne. h.source sound;
      nonempty = h.nonempty;
    },
  )

  reserve-Goes :
      (n : ℕ) → s.writer ≡ writer_waiting → s.write_sem ≡ n + 1 → Goes all (writer_reserve n s)
  unfolding writer_reserve
  reserve-Goes n e free =
      let no_turn = ap writer_turn e in
      let stale = ap writer_fresh e in
      writer-Goes writer_reading n s.read_sem (ground (arith, h.is)) (omega (arith, h.tokens))
        (λ f. cc)

  read-Goes : s.writer ≡ writer_reading → Goes all (writer_read s)
  unfolding writer_read
  read-Goes e =
      let turn = ap writer_turn e in
      let stale = ap writer_fresh e in
      let idle = idle_reader s.reader (omega (arith, h.tokens)) in
      let none_read : s.read_sem ≡ 0 = omega (arith, h.tokens) in
      let old : fresh ≡ false = sym h.is ∙ ground (arith, idle.0) in
      let all_left : rest ≡ concat s.input = h.source (λ f. cc) in
      (
        true,
        concat (later_blocks s.input),
        record {
          is = refl;
          tokens = omega (arith, h.tokens);
          content = λ ok.
              h.content ok
              ∙ (ap (λ b. s.output ++ (fresh_bytes b s.segment ++ rest)) old
                  ∙ ap (λ l. s.output ++ l) (all_left ∙ concat-next s.input));
          begins = h.begins;
          eof = λ t end. next_block-end s.input h.nonempty end;
          finished = h.finished;
          source = λ ne. refl;
          nonempty = later_blocks-All s.input h.nonempty;
        },
      )

  release-Goes : s.writer ≡ writer_releasing → Goes all (writer_release s)
  unfolding writer_release
  release-Goes e =
      let turn = ap writer_turn e in
      let new = ap writer_fresh e in
      let old : fresh ≡ true = sym h.is ∙ ground arith in
      writer-Goes writer_testing s.write_sem (s.read_sem + 1) (ground (arith, old))
        (omega (arith, h.tokens)) (λ f. cc)

  test-Goes : s.writer ≡ writer_testing → Goes all (writer_test s)
  unfolding writer_test
  test-Goes e =
      let no_turn = ap writer_turn e in
      let stale = ap writer_fresh e in
      let facts = after_test-facts (at_end s.segment) in
      writer-Goes (after_test (at_end s.segment)) s.write_sem s.read_sem
        (ground (arith, h.is, facts.0)) (omega (arith, h.tokens, facts.1)) (λ f. cc)

  end-Goes : (n : ℕ) → s.writer ≡ writer_last → s.write_sem ≡ n + 1 → Goes all (writer_end n s)
  unfolding writer_end
  end-Goes n e free =
      let no_turn = ap writer_turn e in
      let stale = ap writer_fresh e in
      writer-Goes writer_done n s.read_sem (ground (arith, h.is)) (omega (arith, h.tokens))
        (λ f. cc)

  -- A block that the writer has read and not passed on counts as left.
  fail-Goes : Goes all (record s { writer = writer_failed })
  fail-Goes = elim (Bool-cases (leb 1 s.read_sem || reader_fresh s.reader)) [
    | inl still ↦
        let old : fresh ≡ true = sym h.is ∙ ground (arith, still) in
        (
          fresh,
          rest,
          record {
            is = still ∙ sym old;
            tokens = omega (arith, h.tokens);
            content = h.content;
            begins = h.begins;
            eof = h.eof;
            finished = h.finished;
            source = λ ne. absurd (ne refl);
            nonempty = h.nonempty;
          },
        )
    | inr gone ↦ (
      false,
      fresh_bytes fresh s.segment ++ rest,
      record {
        is = gone;
        tokens = omega (arith, h.tokens);
        content = h.content;
        begins = h.begins;
        eof = λ t end. absurd (cc);
        finished = h.finished;
        source = λ ne. absurd (ne refl);
        nonempty = h.nonempty;
      },
    )
  ]

  take-Goes :
      (n : ℕ) → s.reader ≡ reader_waiting → s.read_sem ≡ n + 1 → Goes all (reader_reserve n s)
  unfolding reader_reserve
  take-Goes n e free =
      let no_turn = ap reader_turn e in
      let old : fresh ≡ true = sym h.is ∙ ground arith in
      (
        fresh,
        rest,
        record {
          is = ground (arith, old);
          tokens = omega (arith, h.tokens);
          content = λ ok. h.content (ap has_failed e);
          begins = h.begins;
          eof = h.eof;
          finished = λ f. absurd (cc);
          source = h.source;
          nonempty = h.nonempty;
        },
      )

  -- When the reader has the turn, the segment is fresh, and nothing else makes it so.
  copying-fresh :
      s.reader ≡ reader_copying
      → (fresh ≡ true) × ((writer_fresh s.writer || (leb 1 s.read_sem || false)) ≡ false)
  copying-fresh e =
      let turn = ap reader_turn e in
      let new = ap reader_fresh e in
      let idle = idle_writer s.writer (omega (arith, h.tokens)) in
      let none_read : s.read_sem ≡ 0 = omega (arith, h.tokens) in
      (sym h.is ∙ ground arith, ground (arith, idle))

  copying-content : s.reader ≡ reader_copying → all ≡ s.output ++ (s.segment ++ rest)
  copying-content e =
      h.content (ap has_failed e)
      ∙ ap (λ b. s.output ++ (fresh_bytes b s.segment ++ rest)) (copying-fresh e).0

  copy-Goes : s.reader ≡ reader_copying → Goes all (reader_copy s)
  unfolding reader_copy
  copy-Goes e =
      let turn = ap reader_turn e in
      let facts = after_copy-facts (at_end s.segment) in
      let whole = copying-content e ∙ sym (append_assoc s.output s.segment rest) in
      let stale = (copying-fresh e).1 in
      (
        false,
        rest,
        record {
          is = ground (arith, stale, facts.0);
          tokens = omega (arith, h.tokens, facts.1.0);
          content = λ ok. whole;
          begins = (rest, whole);
          eof = λ t end. absurd (cc);
          finished = λ f.
              whole
              ∙ (ap (λ r. (s.output ++ s.segment) ++ r)
                    (h.eof (copying-fresh e).0 (at_end_lem s.segment f))
                  ∙ append-nil (s.output ++ s.segment));
          source = h.source;
          nonempty = h.nonempty;
        },
      )

  give-Goes :
      (r next : Reader)
      → s.reader ≡ r
      → reader_turn r ≡ 1
      → reader_fresh r ≡ false
      → has_failed r ≡ false
      → reader_turn next ≡ 0
      → reader_fresh next ≡ false
      → (has_finished next ≡ true → has_finished r ≡ true)
      → Goes all (reader_give next s)
  unfolding reader_give
  give-Goes r next e turn stale sound turn' stale' ends =
      let had = ap reader_turn e ∙ turn in
      let was = ap reader_fresh e ∙ stale in
      (
        fresh,
        rest,
        record {
          is = ground (arith, h.is);
          tokens = omega (arith, h.tokens);
          content = λ ok. h.content (ap has_failed e ∙ sound);
          begins = h.begins;
          eof = h.eof;
          finished = λ f. h.finished (ap has_finished e ∙ ends f);
          source = h.source;
          nonempty = h.nonempty;
        },
      )

  partial-Goes :
      (part left : Bytes)
      → s.reader ≡ reader_copying
      → s.segment ≡ part ++ left
      → Goes all (record s { reader = reader_failed; output = s.output ++ part })
  partial-Goes part left e split =
      let turn = ap reader_turn e in
      (
        false,
        rest,
        record {
          is = (copying-fresh e).1;
          tokens = omega (arith, h.tokens);
          content = λ ok. absurd (cc);
          begins = (
            left ++ rest,
            copying-content e
                ∙ (ap (λ l. s.output ++ (l ++ rest)) split
                    ∙ (ap (λ l. s.output ++ l) (append_assoc part left rest)
                        ∙ sym (append_assoc s.output part (left ++ rest)))),
          );
          eof = λ t end. absurd (cc);
          finished = λ f. absurd (cc);
          source = h.source;
          nonempty = h.nonempty;
        },
      )

  pub step-Goes : (s' : System) → Step s s' → Goes all s'
  step-Goes s' (writer_reserves n e free) = reserve-Goes n e free
  step-Goes s' (writer_reads e) = read-Goes e
  step-Goes s' (writer_releases e) = release-Goes e
  step-Goes s' (writer_tests e) = test-Goes e
  step-Goes s' (writer_ends n e free) = end-Goes n e free
  step-Goes s' writer_fails = fail-Goes
  step-Goes s' (reader_reserves n e free) = take-Goes n e free
  step-Goes s' (reader_copies e) = copy-Goes e
  step-Goes s' (reader_gives e) =
      give-Goes reader_giving reader_waiting e refl refl refl refl refl (λ f. absurd (cc))
  step-Goes s' (reader_finishes e) =
      give-Goes reader_finishing reader_done e refl refl refl refl refl (λ f. refl)
  step-Goes s' (write_fails part left e split) = partial-Goes part left e split
