-- ===== src/StdinReader/Drain.antt =====
-- The loop of `monitorStdin` over a buffer that holds frames.
use capnp_ls.Prelude.{
  ℕ, zero, suc, ◌<◌, ◌≤◌, ◌+◌, Bytes, List, [], ◌∷◌, ◌++◌, ◌≡◌, refl, some, arith, length, map,
  length-append, drop, drop_past, append_assoc, ap, ◌∙◌,
}
use capnp_ls.StdinReader.{drain, size_mod}
use capnp_ls.StdinReader.Frames.{
  text, length-framed, parse_next_message-text, parse_next_message_waits, Frame,
}
use capnp_ls.StdinReader.Streams.{texts, AllFrames, IsTail, empty, cut}

module _ (buffer : Bytes) (current_pos : ℕ) (small : current_pos < size_mod) where
  -- The loop hands over every complete frame, in order, and then does what it does at `stop`.
  pub drain_past-texts :
      (final : ℕ) (fs : List Frame) (fuel pos stop : ℕ) (rest : Bytes)
      → ((k : ℕ)
          → drain (suc k) buffer current_pos stop
            ≡ some (record { processed_pos = final; messages = [] }))
      → AllFrames fs
      → drop pos buffer ≡ texts fs ++ rest
      → stop ≡ pos + length (texts fs)
      → stop ≤ current_pos
      → length fs < fuel
      → drain fuel buffer current_pos pos
        ≡ some (record { processed_pos = final; messages = map text fs })
  unfolding drain
  drain_past-texts final fs zero pos stop rest ends h e s c f = absurd (omega arith)
  drain_past-texts final [] (suc fuel) pos stop rest ends h e s c f =
      let at : pos ≡ stop = omega arith in ap (drain (suc fuel) buffer current_pos) at ∙ ends fuel
  drain_past-texts final (x ∷ fs) (suc fuel) pos stop rest ends h e s c f =
      let unread = texts fs ++ rest in
      let here = e ∙ append_assoc (text x) (texts fs) rest in
      let end : stop ≡ pos + length (text x) + length (texts fs) =
        omega (arith, length-append (text x) (texts fs)) in
      ground (
        arith,
        length-framed x.digits x.body,
        parse_next_message-text buffer current_pos pos small x unread h.0 here (omega arith),
        drain_past-texts final fs fuel (pos + length (text x)) stop rest ends h.1
            (drop_past pos (pos + length (text x)) buffer (text x) unread here refl) end c
            (omega arith),
      )

  -- At what is left of a stream the loop stops.
  drain-IsTail :
      (pos : ℕ) (tail stale : Bytes)
      → IsTail tail
      → drop pos buffer ≡ tail ++ stale
      → current_pos ≡ pos + length tail
      → (k : ℕ)
      → drain (suc k) buffer current_pos pos ≡ some (record { processed_pos = pos; messages = [] })
  unfolding drain
  drain-IsTail pos tail stale empty e c k = ground arith
  drain-IsTail pos tail stale (cut ds part h short te) e c k = ground (
    arith,
    parse_next_message_waits buffer current_pos pos small ds part stale h
        (e ∙ ap (λ t. t ++ stale) te) (omega (arith, ap length te)) short,
  )

  -- The loop hands over every complete frame, in order, and stops at the start of what is left.
  pub drain-texts :
      (fs : List Frame) (fuel : ℕ) (tail stale : Bytes)
      → AllFrames fs
      → IsTail tail
      → buffer ≡ texts fs ++ (tail ++ stale)
      → current_pos ≡ length (texts fs) + length tail
      → length fs < fuel
      → drain fuel buffer current_pos 0
        ≡ some (record { processed_pos = length (texts fs); messages = map text fs })
  drain-texts fs fuel tail stale h t e c f =
      drain_past-texts (length (texts fs)) fs fuel 0 (length (texts fs)) (tail ++ stale)
        (drain-IsTail (length (texts fs)) tail stale t
          (drop_past 0 (length (texts fs)) buffer (texts fs) (tail ++ stale) e (omega arith)) c)
        h e (omega arith) (omega arith) f
