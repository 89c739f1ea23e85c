-- ===== src/Ingest/Pcap/Runs.antt =====
-- Runs of the reader: every order of the steps of the producer, the consumer and `stop`.
use sih.Ingest.Pcap.{
  new_reader, is_full, end_file, step, put_sentinel, read_packet, get_packet, Phase, Reader, Event,
  run, packet, file_end, sentinel, take_one, stop, reading, ending, ended,
}
use sih.Prelude.{
  false, true, Bool, if◌then◌else◌, arith, append_assoc, append-nil, map, ◌++◌, ◌∷◌, [], List, some,
  none, Option, inr, inl, ◌∙◌, subst, ap, sym, refl, ◌≡◌, ◌<◌, suc, ℕ, length, Bool-cases,
}
use sih.Ingest.Pcap.Stream.{
  offer-IsStream, room, no_marks, longer-IsStream, packets_of, IsMark, IsStream,
}
use sih.Ingest.Pcap.Sublist.{nil}

module _ {A : Type 0} where
  either_branch :
      (P : Reader A → Type 0) (b : Bool) {x y : Reader A} → P x → P y → P (if b then x else y)
  either_branch P true p q = p
  either_branch P false p q = q

  moved-IsStream :
      (p : Phase) (r : Reader A) (file : List A) (s : IsStream r file)
      → IsMark p s.marks
      → IsStream (record r { phase = p }) file
  moved-IsStream p r file s m = record {
    kept = s.kept;
    marks = s.marks;
    split = s.split;
    order = s.order;
    mark = m;
    counted = s.counted;
    bounded = s.bounded;
    positive = s.positive;
    sampling = s.sampling;
  }

  read_packet-IsStream :
      (a : A) (p : Phase) (r : Reader A) (file : List A)
      → r.phase ≡ p
      → IsStream r file
      → IsStream (read_packet a p r) (file ++ a ∷ [])
  unfolding read_packet
  read_packet-IsStream a ending r file h s = longer-IsStream a r file s
  read_packet-IsStream a ended r file h s = longer-IsStream a r file s
  read_packet-IsStream a reading r file h s =
      either_branch (λ (out : Reader A). IsStream out (file ++ a ∷ [])) r.stop_event
        (longer-IsStream a (record r { phase = ending }) file
          (moved-IsStream ending r file s (no_marks r file s h)))
        (offer-IsStream a r file s h)

  end_file-IsStream :
      (p : Phase) (r : Reader A) (file : List A)
      → r.phase ≡ p
      → IsStream r file
      → IsStream (end_file p r) file
  end_file-IsStream reading r file h s = moved-IsStream ending r file s (no_marks r file s h)
  end_file-IsStream ending r file h s = s
  end_file-IsStream ended r file h s = s

  sentinel_last :
      (received buffer kept marks : List (Option A))
      → received ++ buffer ≡ kept ++ marks
      → marks ≡ []
      → received ++ (buffer ++ none ∷ []) ≡ kept ++ none ∷ []
  sentinel_last received buffer kept marks h m =
      sym (append_assoc received buffer (none ∷ []))
      ∙ ap (λ (l : List (Option A)). l ++ none ∷ [])
          (h ∙ ap (λ (l : List (Option A)). kept ++ l) m ∙ append-nil kept)

  put_sentinel-IsStream :
      (p : Phase) (r : Reader A) (file : List A)
      → r.phase ≡ p
      → IsStream r file
      → IsStream (put_sentinel p r) file
  unfolding put_sentinel
  put_sentinel-IsStream reading r file h s = s
  put_sentinel-IsStream ended r file h s = s
  put_sentinel-IsStream ending r file h s =
      let m : s.marks ≡ [] = subst (λ (p : Phase). IsMark p s.marks) h s.mark in
      elim (Bool-cases (is_full r)) [
        | inl full ↦ rw (full, put_sentinel) (moved-IsStream ended r file s (inl m))
        | inr free ↦
            rw (free, put_sentinel)
              (record {
                kept = s.kept;
                marks = none ∷ [];
                split = sentinel_last r.received r.buffer (map some s.kept) s.marks s.split m;
                order = s.order;
                mark = inr refl;
                counted = s.counted;
                bounded = room r none free s.positive;
                positive = s.positive;
                sampling = s.sampling;
              })
      ]

  get_packet-IsStream :
      (buffer : List (Option A)) (r : Reader A) (file : List A)
      → r.buffer ≡ buffer
      → IsStream r file
      → IsStream (get_packet buffer r) file
  unfolding get_packet
  get_packet-IsStream [] r file h s = s
  get_packet-IsStream (x ∷ rest) r file h s = record {
    kept = s.kept;
    marks = s.marks;
    split =
        append_assoc r.received (x ∷ []) rest
        ∙ ap (λ (l : List (Option A)). r.received ++ l) (sym h)
        ∙ s.split;
    order = s.order;
    mark = s.mark;
    counted = s.counted;
    bounded =
        (let e : length r.buffer ≡ suc (length rest) = ap length h in omega (arith, e, s.bounded));
    positive = s.positive;
    sampling = s.sampling;
  }

  run-Stream :
      (events : List (Event A)) (r : Reader A) (file : List A)
      → IsStream r file
      → IsStream (run events r) (file ++ packets_of events)
  unfolding run step packets_of
  run-Stream [] r file s = rw append-nil s
  run-Stream (packet a ∷ events) r file s =
      rw (← append_assoc file (a ∷ []) (packets_of events))
        (run-Stream events _ _ (read_packet-IsStream a r.phase r file refl s))
  run-Stream (file_end ∷ events) r file s =
      run-Stream events _ file (end_file-IsStream r.phase r file refl s)
  run-Stream (sentinel ∷ events) r file s =
      run-Stream events _ file (put_sentinel-IsStream r.phase r file refl s)
  run-Stream (take_one ∷ events) r file s =
      run-Stream events _ file (get_packet-IsStream r.buffer r file refl s)
  run-Stream (stop ∷ events) r file s = run-Stream events _ file (record {
    kept = s.kept;
    marks = s.marks;
    split = s.split;
    order = s.order;
    mark = s.mark;
    counted = s.counted;
    bounded = s.bounded;
    positive = s.positive;
    sampling = s.sampling;
  })

  -- With a positive queue size and sampling period, and in whatever order the threads take their
  -- steps: what the consumer has received, and after it what is in the queue, is a part of the
  -- packets of the file in their order, and after it at most one sentinel, which is there only once
  -- the producer has ended. Each packet that the producer has counted is in that part or was
  -- counted as dropped, and the queue never holds more than its size.
  pub run-IsStream :
      (max period : ℕ) (events : List (Event A))
      → 0 < max
      → 0 < period
      → IsStream (run events (new_reader max period)) (packets_of events)
  run-IsStream max period events h g = run-Stream events (new_reader max period) [] (record {
    kept = [];
    marks = [];
    split = refl;
    order = nil;
    mark = refl;
    counted = refl;
    bounded = omega (arith, h);
    positive = h;
    sampling = g;
  })
