-- ===== src/Ingest/Pcap/Stream.antt =====
-- What the consumer of the reader gets, whatever the order of the steps.
use sih.Prelude.{
  arith, append_assoc, append-nil, false, true, Bool, inr, inl, ◌∙◌, subst, ap, sym, refl, suc,
  zero, ℕ, length-append, Bool-cases, map, ◌++◌, ◌∷◌, [], List, some, none, Option, ◌⊎◌, ◌≡◌, ◌<◌,
  ◌≤◌, ◌+◌, length,
}
use sih.Ingest.Pcap.{
  is_pressed, sampled, drop_packet, put_nowait, is_skipped, is_full, offer, Reader, Event, Phase,
}
use sih.Ingest.Pcap.Sublist.{keep_last, skip_last, Sublist}
use sih.Ingest.Pcap.{packet, file_end, sentinel, take_one, stop, reading, ended}

is_skipped_there : (period count : ℕ) → 0 < period → (b : Bool) × (is_skipped period count ≡ some b)
unfolding is_skipped
is_skipped_there zero count h = absurd (omega (arith, h))
is_skipped_there (suc n) count h = (_, refl)

module _ {A : Type 0} where
  map-append_one : (xs : List A) (a : A) → map some (xs ++ a ∷ []) ≡ map some xs ++ some a ∷ []
  map-append_one [] a = refl
  map-append_one (x ∷ xs) a = ap (◌∷◌ (some x)) (map-append_one xs a)

  -- The packets of the file that the steps reach, in order.
  unfoldable pub packets_of : List (Event A) → List A
  packets_of [] = []
  packets_of (packet a ∷ events) = a ∷ packets_of events
  packets_of (file_end ∷ events) = packets_of events
  packets_of (sentinel ∷ events) = packets_of events
  packets_of (take_one ∷ events) = packets_of events
  packets_of (stop ∷ events) = packets_of events

  -- The sentinel is the last of the stream, and there only after the thread has ended.
  abbrev pub IsMark : Phase → List (Option A) → Type 0
  IsMark ended marks = (marks ≡ []) ⊎ (marks ≡ none ∷ [])
  IsMark _ marks = marks ≡ []

  -- The stream is what the consumer has got, and after it what is in the queue.
  pub record IsStream (r : Reader A) (file : List A) : Type 0 where
    pub kept : List A
    pub marks : List (Option A)
    pub split : r.received ++ r.buffer ≡ map some kept ++ marks
    pub order : Sublist kept file
    pub mark : IsMark r.phase marks
    pub counted : r.dropped_packets + length kept ≡ r.packet_count
    pub bounded : length r.buffer ≤ r.max_buffer_size
    pub positive : 0 < r.max_buffer_size
    pub sampling : 0 < r.period

  abbrev counted_packet : Reader A → Reader A
  counted_packet r = record r { packet_count = r.packet_count + 1 }

  pub no_marks :
      (r : Reader A) (file : List A) (s : IsStream r file) → r.phase ≡ reading → s.marks ≡ []
  no_marks r file s ph = subst (λ (p : Phase). IsMark p s.marks) ph s.mark

  pub longer-IsStream :
      (a : A) (r : Reader A) (file : List A) → IsStream r file → IsStream r (file ++ a ∷ [])
  longer-IsStream a r file s = record {
    kept = s.kept;
    marks = s.marks;
    split = s.split;
    order = skip_last a s.order;
    mark = s.mark;
    counted = s.counted;
    bounded = s.bounded;
    positive = s.positive;
    sampling = s.sampling;
  }

  drop_packet-IsStream :
      (a : A) (r : Reader A) (file : List A)
      → IsStream r file
      → IsStream (drop_packet (counted_packet r)) (file ++ a ∷ [])
  drop_packet-IsStream a r file s = record {
    kept = s.kept;
    marks = s.marks;
    split = s.split;
    order = skip_last a s.order;
    mark = s.mark;
    counted = omega (arith, s.counted);
    bounded = s.bounded;
    positive = s.positive;
    sampling = s.sampling;
  }

  split_last :
      (received buffer : List (Option A)) (kept : List A) (marks : List (Option A)) (a : A)
      → received ++ buffer ≡ map some kept ++ marks
      → marks ≡ []
      → received ++ (buffer ++ some a ∷ []) ≡ map some (kept ++ a ∷ []) ++ []
  split_last received buffer kept marks a h m =
      sym (append_assoc received buffer (some a ∷ []))
      ∙ ap (λ (l : List (Option A)). l ++ some a ∷ [])
          (h ∙ ap (λ (l : List (Option A)). map some kept ++ l) m ∙ append-nil (map some kept))
      ∙ sym (append-nil (map some (kept ++ a ∷ [])) ∙ map-append_one kept a)

  pub room :
      (r : Reader A) (x : Option A)
      → is_full r ≡ false
      → 0 < r.max_buffer_size
      → length (r.buffer ++ x ∷ []) ≤ r.max_buffer_size
  room r x h p = ground (arith, length-append r.buffer (x ∷ []))

  put_nowait-IsStream :
      (a : A) (r : Reader A) (file : List A)
      → IsStream r file
      → r.phase ≡ reading
      → IsStream (put_nowait a (counted_packet r)) (file ++ a ∷ [])
  unfolding put_nowait
  put_nowait-IsStream a r file s ph = elim (Bool-cases (is_full r)) [
    | inl full ↦ rw (full, put_nowait) (drop_packet-IsStream a r file s)
    | inr free ↦
        rw (free, put_nowait)
          (record {
            kept = s.kept ++ a ∷ [];
            marks = [];
            split = split_last r.received r.buffer s.kept s.marks a s.split (no_marks r file s ph);
            order = keep_last a s.order;
            mark = subst (λ (p : Phase). IsMark p []) (sym ph) refl;
            counted = omega (arith, s.counted, length-append s.kept (a ∷ []));
            bounded = room r (some a) free s.positive;
            positive = s.positive;
            sampling = s.sampling;
          })
  ]

  sampled-IsStream :
      (o : Option Bool) (a : A) (r : Reader A) (file : List A)
      → (b : Bool) × (o ≡ some b)
      → IsStream r file
      → r.phase ≡ reading
      → IsStream (sampled o a (counted_packet r)) (file ++ a ∷ [])
  unfolding sampled
  sampled-IsStream none a r file (b, h) s ph = cc
  sampled-IsStream (some true) a r file h s ph = drop_packet-IsStream a r file s
  sampled-IsStream (some false) a r file h s ph = put_nowait-IsStream a r file s ph

  pub offer-IsStream :
      (a : A) (r : Reader A) (file : List A)
      → IsStream r file
      → r.phase ≡ reading
      → IsStream (offer a r) (file ++ a ∷ [])
  unfolding offer
  offer-IsStream a r file s ph = elim (Bool-cases (is_pressed r)) [
    | inl pressed ↦
        rw (pressed, offer)
          (sampled-IsStream (is_skipped r.period (r.packet_count + 1)) a r file
            (is_skipped_there r.period (r.packet_count + 1) s.sampling) s ph)
    | inr eased ↦ rw (eased, offer) (put_nowait-IsStream a r file s ph)
  ]
