-- ===== src/Telemetry/Untorn.antt =====
-- Lemmas on consistent reads of the telemetry block of
-- include/ocudu_gpu_channel/runtime_control.h, under interleavings with the writer.
use ocudu_channel.Common.{
  ℕ, ◌+◌, ◌%◌, ◌<◌, ◌≤◌, ◌≡◌, ◌⊎◌, inl, inr, refl, sym, ap, subst, ◌∙◌, List, [], ◌∷◌, ◌==◌, ==_iff,
  if_split, if_both, ltb, ltb→lt, update, add64, word_mod, arith, Bool-cases,
}
use ocudu_channel.Telemetry.{
  Words, Writer, idle, filling, Reader, attempt, copying, consistent, gave_up, Telemetry, write_by,
  publish_step, read_by, read_step, Step, writes, reads, Reach, here, next, initial,
}

module _ {W : Type 0} where
  -- Two snapshots agree on their first `k` words.
  abbrev pub Agree : ℕ → Words W → Words W → Type 0
  Agree k a b = (j : ℕ) → j < k → a j ≡ b j

  abbrev pub OneOf : ℕ → Words W → List (Words W) → Type 0
  OneOf size copy [] = ⊥
  OneOf size copy (snap ∷ snaps) = Agree size copy snap ⊎ OneOf size copy snaps

module _ {W : Type 0} (size max_retries : ℕ) where
  abbrev WriterOk : Telemetry W → Writer W → Type 0
  WriterOk s idle = (s.write_seq % 2 ≡ 0) × Agree size s.memory s.latest
  WriterOk s (filling pre new k) =
      (s.write_seq ≡ pre + 1) × (pre % 2 ≡ 0) × (k ≤ size) × Agree k s.memory new

  abbrev ReaderOk : Telemetry W → Reader W → Type 0
  ReaderOk s (attempt n copy) = Unit
  ReaderOk s (copying n pre k copy) =
      (pre % 2 ≡ 0) × (pre ≤ s.write_seq) × (k ≤ size) × (pre ≡ s.write_seq → Agree k copy s.latest)
  ReaderOk s (consistent copy) = OneOf size copy s.published
  ReaderOk s (gave_up copy) = Unit

  pub record Inv (s : Telemetry W) : Type 0 where
    pub writer_ok : WriterOk s s.writer
    pub reader_ok : ReaderOk s s.reader
    pub listed : OneOf size s.latest s.published

  Agree-update : (k : ℕ) (a b : Words W) → Agree k a b → Agree (k + 1) (update a k (b k)) b
  Agree-update k a b h j small =
      if_split (λ x. x ≡ b j) (j == k) (λ same. ap b (sym ((==_iff j k).0 same)))
        (λ other. h j (ground (arith, ==_iff j k)))

  OneOf-Agree :
      (a b : Words W) (snaps : List (Words W))
      → Agree size a b
      → OneOf size b snaps
      → OneOf size a snaps
  OneOf-Agree a b [] h o = o
  OneOf-Agree a b (snap ∷ snaps) h (inl k) = inl (λ j small. h j small ∙ k j small)
  OneOf-Agree a b (snap ∷ snaps) h (inr o) = inr (OneOf-Agree a b snaps h o)

  -- At an even sequence the memory holds the latest snapshot.
  even-Agree :
      (s : Telemetry W) (wr : Writer W)
      → WriterOk s wr
      → s.write_seq % 2 ≡ 0
      → Agree size s.memory s.latest
  even-Agree s idle h even = h.1
  even-Agree s (filling pre new k) h even = absurd (omega (arith, h.0, h.1, even))

  -- A step of the writer keeps what is known of the reader.
  reader_kept :
      (s s' : Telemetry W) (rd : Reader W)
      → s.write_seq ≤ s'.write_seq
      → (s.write_seq ≡ s'.write_seq → s'.latest ≡ s.latest)
      → ((copy : Words W) → OneOf size copy s.published → OneOf size copy s'.published)
      → ReaderOk s rd
      → ReaderOk s' rd
  reader_kept s s' (attempt n copy) up same more h = tt
  reader_kept s s' (gave_up copy) up same more h = tt
  reader_kept s s' (consistent copy) up same more h = more copy h
  reader_kept s s' (copying n pre k copy) up same more h = (
    h.0,
    omega (arith, h.1, up),
    h.2,
    λ e.
        let still : s.write_seq ≡ s'.write_seq = omega (arith, h.1, up, e) in
        subst (Agree k copy) (sym (same still)) (h.3 (omega (arith, h.1, up, e))),
  )

  written-Inv :
      (s : Telemetry W) (snap : Words W) (wr : Writer W)
      → s.write_seq + 2 < word_mod
      → WriterOk s wr
      → ReaderOk s s.reader
      → OneOf size s.latest s.published
      → Inv (write_by size snap s wr)
  unfolding write_by
  written-Inv s snap idle room w r l = record {
    writer_ok = (omega arith, w.0, omega arith, λ j small. absurd (omega arith));
    reader_ok =
        reader_kept s
          (record s { write_seq = add64 s.write_seq 1; writer = filling s.write_seq snap 0 })
          s.reader (omega (arith, room)) (λ e. refl) (λ copy o. o) r;
    listed = l;
  }
  written-Inv s snap (filling pre new k) room w r l = elim (Bool-cases (ltb k size)) [
    | inl more ↦ rw more (record {
      writer_ok = (w.0, w.1, ground (arith, more), Agree-update k s.memory new w.3);
      reader_ok =
          reader_kept s
            (record s { memory = update s.memory k (new k); writer = filling pre new (k + 1) })
            s.reader (omega arith) (λ e. refl) (λ copy o. o) r;
      listed = l;
    })
    | inr all ↦
        let full : size ≤ k = ground (arith, all) in
        rw all (record {
          writer_ok = (omega (arith, w.0, w.1, room), λ j small. w.3 j (omega (arith, full)));
          reader_ok =
              reader_kept s
                (record s {
                  write_seq = add64 pre 2;
                  writer = idle;
                  latest = new;
                  published = new ∷ s.published;
                })
                s.reader (omega (arith, w.0, room)) (λ e. absurd (omega (arith, w.0, room)))
                (λ copy o. inr o) r;
          listed = inl (λ j small. refl);
        })
  ]

  -- Only the reader's own part changes.
  reader-Inv :
      (s : Telemetry W) (rd : Reader W) → Inv s → ReaderOk s rd → Inv (record s { reader = rd })
  reader-Inv s rd inv h = record { writer_ok = inv.writer_ok; reader_ok = h; listed = inv.listed }

  copied-Agree :
      (s : Telemetry W) (pre k : ℕ) (copy : Words W)
      → Inv s
      → k < size
      → pre % 2 ≡ 0
      → (pre ≡ s.write_seq → Agree k copy s.latest)
      → pre ≡ s.write_seq
      → Agree (k + 1) (update copy k (s.memory k)) s.latest
  copied-Agree s pre k copy inv small even h e =
      let whole = even-Agree s s.writer inv.writer_ok (omega (arith, even, e)) in
      subst (λ v. Agree (k + 1) (update copy k v) s.latest) (sym (whole k small))
        (Agree-update k copy s.latest (h e))

  read-Inv :
      (s : Telemetry W) (rd : Reader W)
      → Inv s
      → ReaderOk s rd
      → Inv (read_by size max_retries s rd)
  unfolding read_by
  read-Inv s (consistent copy) inv h = inv
  read-Inv s (gave_up copy) inv h = inv
  read-Inv s (attempt n copy) inv h =
      if_both Inv (ltb n max_retries)
        (if_split Inv (s.write_seq % 2 == 1) (λ odd. reader-Inv s (attempt (n + 1) copy) inv tt)
          (λ even.
            reader-Inv s (copying n s.write_seq 0 copy) inv
              (ground (arith, even), omega arith, omega arith, λ e j small. absurd (omega arith))))
        (reader-Inv s (gave_up copy) inv tt)
  read-Inv s (copying n pre k copy) inv h =
      if_split Inv (ltb k size)
        (λ more.
          let small : k < size = ltb→lt k size more in
          reader-Inv s (copying n pre (k + 1) (update copy k (s.memory k))) inv
            (h.0, h.1, omega (arith, small), copied-Agree s pre k copy inv small h.0 h.3))
        (λ all.
          let full : size ≤ k = ground (arith, all) in
          if_split Inv (pre == s.write_seq)
            (λ same. reader-Inv s (consistent copy) inv (
              OneOf-Agree copy s.latest s.published
                (λ j small. h.3 ((==_iff pre s.write_seq).0 same) j (omega (arith, full, small)))
                inv.listed))
            (λ other. reader-Inv s (attempt (n + 1) copy) inv tt))

  initial-Inv : (blank : Words W) → Inv (initial blank)
  unfolding initial
  initial-Inv blank = record {
    writer_ok = (refl, λ j small. refl);
    reader_ok = tt;
    listed = inl (λ j small. refl);
  }

  Step-Inv : {s t : Telemetry W} → Step size max_retries s t → Inv s → Inv t
  unfolding publish_step read_step
  Step-Inv {s} (writes snap room) inv =
      written-Inv s snap s.writer room inv.writer_ok inv.reader_ok inv.listed
  Step-Inv {s} reads inv = read-Inv s s.reader inv inv.reader_ok

  Reach-Inv : {s t : Telemetry W} → Inv s → Reach size max_retries s t → Inv t
  Reach-Inv inv here = inv
  Reach-Inv inv (next r step) = Step-Inv step (Reach-Inv inv r)

  -- However the two threads interleave, word by word, a read that returns because its two loads of
  -- the sequence agreed is, word for word, the initial snapshot or one that was published as a whole.
  pub read-untorn :
      (blank copy : Words W) {s : Telemetry W}
      → Reach size max_retries (initial blank) s
      → s.reader ≡ consistent copy
      → OneOf size copy s.published
  read-untorn blank copy {s} r e = subst (ReaderOk s) e (Reach-Inv (initial-Inv blank) r).reader_ok
