-- ===== src/Features/Traffic/History.antt =====
-- The packets that the encrypted extractor remembers.
use sih.Features.Numbers.{Numbers}
use sih.Parsers.Tls.{Handshake}
use sih.Prelude.{
  length-take, append_assoc, append-nil, map, ap, sym, ◌-◌, length-append, arith, ◌++◌, ◌∷◌, [],
  List, refl, ◌≡◌, suc, zero, ℕ, take, length, if◌then◌else◌, ltb,
}
use sih.Parsers.Packet.{Meta}
use sih.Features.Traffic.{
  new_encrypted, ipts, extract_encrypted, ipts_from, update_encrypted, EncryptedExtractor,
}

module _ (nu : Numbers) where
  open nu use {F}

  -- A packet of a TLS handshake: its meta data, the handshake and the time.
  abbrev pub Seen : Type 0
  Seen = Meta × Handshake × ℕ

  unfoldable pub update_all : List Seen → EncryptedExtractor nu → EncryptedExtractor nu
  unfolding update_encrypted
  update_all [] e = e
  update_all (p ∷ packets) e = update_all packets (update_encrypted nu p.0 p.1 p.2 e)

  abbrev pub size_of : Seen → ℕ
  size_of p = p.0.ip_len

  abbrev pub time_of : Seen → ℕ
  time_of p = p.2

  abbrev IsHistory : ℕ → List ℕ → List ℕ → EncryptedExtractor nu → Type 0
  IsHistory n sizes times e =
      (e.packet_sizes ≡ take n sizes)
      × (e.packet_timings ≡ take n times)
      × (e.max_packet_history ≡ n)
      × (length sizes ≡ length times)

  take_none : (n : ℕ) → take {A = ℕ} n [] ≡ []
  take_none zero = refl
  take_none (suc n) = refl

  take-snoc :
      (n : ℕ) (xs : List ℕ) (x : ℕ)
      → take n (xs ++ x ∷ [])
        ≡ (if ltb (length (take n xs)) n then take n xs ++ x ∷ [] else take n xs)
  take-snoc zero [] x = refl
  take-snoc zero (y ∷ xs) x = refl
  take-snoc (suc zero) [] x = refl
  take-snoc (suc (suc n)) [] x = ground arith
  take-snoc (suc n) (y ∷ xs) x = ground (arith, take-snoc n xs x)

  IsHistory-update :
      (n : ℕ) (sizes times : List ℕ) (p : Seen) (e : EncryptedExtractor nu)
      → IsHistory n sizes times e
      → IsHistory n
          (sizes ++ size_of p ∷ [])
          (times ++ time_of p ∷ [])
          (update_encrypted nu p.0 p.1 p.2 e)
  unfolding update_encrypted
  IsHistory-update n sizes times p e h = ground (
    arith,
    take-snoc n sizes (size_of p),
    take-snoc n times (time_of p),
    length-take n sizes,
    length-take n times,
    length-append sizes (size_of p ∷ []),
    length-append times (time_of p ∷ []),
  )

  IsHistory-update_all :
      (n : ℕ) (sizes times : List ℕ) (packets : List Seen) (e : EncryptedExtractor nu)
      → IsHistory n sizes times e
      → IsHistory n
          (sizes ++ map size_of packets)
          (times ++ map time_of packets)
          (update_all packets e)
  unfolding update_all
  IsHistory-update_all n sizes times [] e h = rw (append-nil sizes) (rw (append-nil times) h)
  IsHistory-update_all n sizes times (p ∷ packets) e h =
      rw (sym (append_assoc sizes (size_of p ∷ []) (map size_of packets))) (
        rw (sym (append_assoc times (time_of p ∷ []) (map time_of packets))) (
          IsHistory-update_all n _ _ packets (update_encrypted nu p.0 p.1 p.2 e)
            (IsHistory-update n sizes times p e h)))

  length-ipts_from :
      (before : ℕ) (timings : List ℕ) → length (ipts_from nu before timings) ≡ length timings
  unfolding ipts_from
  length-ipts_from before [] = refl
  length-ipts_from before (now ∷ timings) = ap suc (length-ipts_from now timings)

  length-ipts : (timings : List ℕ) → length (ipts nu timings) ≡ length timings - 1
  unfolding ipts
  length-ipts [] = refl
  length-ipts (first ∷ timings) = ground (arith, length-ipts_from first timings)

  -- After any handshake packets, the features have the sizes of the first `max_packet_history` of them
  -- alone, which no later packet changes, and one distance less than sizes.
  pub extract_encrypted-update_all :
      (n : ℕ) (packets : List Seen)
      → let features = extract_encrypted nu (update_all packets (new_encrypted nu n)) in
        (features.sizes ≡ take n (map size_of packets))
        × (length features.packet_ipts ≡ length features.sizes - 1)
  unfolding extract_encrypted
  extract_encrypted-update_all n packets =
      let e = update_all packets (new_encrypted nu n) in
      let kept =
        IsHistory-update_all n [] [] packets (new_encrypted nu n)
          (sym (take_none n), sym (take_none n), refl, refl) in
      (
        kept.0,
        ground (
          arith,
          kept,
          length-ipts e.packet_timings,
          length-take n (map size_of packets),
          length-take n (map time_of packets),
        ),
      )
