-- ===== src/FeatureEngineering/Reads/Once.antt =====
-- Each message of the stream is handled once, in its order.
use mathlib.Core.List.{append_assoc, flatten}
use mathlib.Core.Path.{subst}
use portfolio_engine.Prelude.{
  ℕ, zero, suc, ◌*◌, ◌≤◌, ◌≡◌, refl, sym, ap, ◌∙◌, inl, inr, String, Bool, Bool-cases, true, Option,
  Option-cases, List, [], ◌∷◌, ◌++◌, length, take, drop, replicate, arith, if◌then◌else◌,
}
use portfolio_engine.Float.{Float}
use portfolio_engine.Database.{pair_key}
use portfolio_engine.FeatureEngineering.Indicators.{Series}
use portfolio_engine.FeatureEngineering.Stream.{
  Message, Stored, Consumer, fresh, candle_of, handle, run,
}
use portfolio_engine.FeatureEngineering.Reads.{Response, Xread, read_count, consume, consume_loop}
use portfolio_engine.FeatureEngineering.Reads.Ids.{
  last_id_of, last_id_of-append, messages_of, AreIds, AreIds-prefix, IsXread,
}
use portfolio_engine.FeatureEngineering.Reads.Queue.{streams_of, taken, take-drop, taken-all}

module _ {F : Type 0} where
  -- `b` where the first run has ended without an exception.
  abbrev pub then_run :
      Bool × Consumer F × Stored F
      → (Consumer F → Stored F → Bool × Consumer F × Stored F)
      → Bool × Consumer F × Stored F
  then_run a b = let rest = b a.1 a.2 in if a.0 then rest else a

module _ {F : Type 0} ⦃f : Float F⦄ (series : Series F) (parse_float : String → Option F) where
  run-append :
      (ms ns : List Message) (k : Consumer F) (t : Stored F)
      → run series parse_float (ms ++ ns) k t
        ≡ then_run (run series parse_float ms k t) (run series parse_float ns)
  unfolding run
  run-append [] ns k t = refl
  run-append (m ∷ ms) ns k t = elim (Option-cases (candle_of parse_float m)) [
    | inl e ↦ rw (e, run) refl
    | inr (candle, e) ↦
        let next = handle series candle (record k { last_id = m.msg_id }) t in
        rw (e, run) (run-append ms ns next.0 next.1)
  ]

  run-last_id :
      (ms : List Message) (k : Consumer F) (t : Stored F)
      → (run series parse_float ms k t).0 ≡ true
      → (run series parse_float ms k t).1.last_id ≡ last_id_of k.last_id ms
  unfolding run handle
  run-last_id [] k t h = refl
  run-last_id (m ∷ ms) k t h = elim (Option-cases (candle_of parse_float m)) [
    | inl e ↦ absurd (ground (arith, rw (e, run) at h))
    | inr (candle, e) ↦
        let next = handle series candle (record k { last_id = m.msg_id }) t in
        rw (e, run) (run-last_id ms next.0 next.1 (rw (e, run) at h))
  ]

  consume-run :
      (response : Response) (k : Consumer F) (t : Stored F)
      → consume series parse_float response k t ≡ run series parse_float (messages_of response) k t
  unfolding consume run
  consume-run [] k t = refl
  consume-run ((name, ms) ∷ response) k t =
      let after = run series parse_float ms k t in
      ap (λ r. if after.0 then r else after) (consume-run response after.1 after.2)
      ∙ sym (run-append ms (messages_of response) k t)

  module _ (xread : Xread) (laws : IsXread xread) where
    reads_queue :
        (before queue new rest : List Message) (k : Consumer F) (t : Stored F)
        → AreIds (before ++ (queue ++ (new ++ rest)))
        → k.last_id ≡ last_id_of "0" before
        → consume series parse_float (xread ((before ++ queue) ++ new) k.last_id read_count) k t
          ≡ run series parse_float (take read_count (queue ++ new)) k t
    reads_queue before queue new rest k t ids same =
        let grouped : before ++ (queue ++ (new ++ rest)) ≡ (before ++ (queue ++ new)) ++ rest =
          ap (λ l. before ++ l) (sym (append_assoc queue new rest))
          ∙ sym (append_assoc before (queue ++ new) rest) in
        let known = AreIds-prefix (before ++ (queue ++ new)) rest (subst AreIds grouped ids) in
        consume-run (xread ((before ++ queue) ++ new) k.last_id read_count) k t
        ∙ ap (λ ms. run series parse_float ms k t)
            (ap (λ stream. messages_of (xread stream k.last_id read_count))
                (append_assoc before queue new)
              ∙ ap (λ id. messages_of (xread (before ++ (queue ++ new)) id read_count)) same
              ∙ laws.reads_after before (queue ++ new) read_count known)

    -- Of a stream that starts with what was read, the loop handles what the queue gives.
    consume_loop-taken :
        (before queue : List Message) (arrivals : List (List Message)) (k : Consumer F)
        (t : Stored F)
        → AreIds (before ++ (queue ++ flatten arrivals))
        → k.last_id ≡ last_id_of "0" before
        → consume_loop series parse_float xread (streams_of (before ++ queue) arrivals) k t
          ≡ run series parse_float (taken queue arrivals) k t
    unfolding consume_loop run flatten
    consume_loop-taken before queue [] k t ids same = refl
    consume_loop-taken before queue (new ∷ arrivals) k t ids same =
        let stream = (before ++ queue) ++ new in
        let now = take read_count (queue ++ new) in
        let later = drop read_count (queue ++ new) in
        let after = run series parse_float now k t in
        let next = consume_loop series parse_float xread (streams_of stream arrivals) in
        let moved : (before ++ now) ++ later ≡ stream =
          append_assoc before now later
          ∙ ap (λ l. before ++ l) (take-drop read_count (queue ++ new))
          ∙ sym (append_assoc before queue new) in
        let still : before ++ (queue ++ (new ++ flatten arrivals))
            ≡ (before ++ now) ++ (later ++ flatten arrivals) =
          sym (append_assoc before queue (new ++ flatten arrivals))
          ∙ sym (append_assoc (before ++ queue) new (flatten arrivals))
          ∙ ap (λ l. l ++ flatten arrivals) (sym moved)
          ∙ append_assoc (before ++ now) later (flatten arrivals) in
        let onward : then_run after next
            ≡ then_run after (run series parse_float (taken later arrivals)) =
          elim (Bool-cases after.0) [
            | inl e ↦
                let last : after.1.last_id ≡ last_id_of "0" (before ++ now) =
                  run-last_id now k t e
                  ∙ ap (λ id. last_id_of id now) same
                  ∙ sym (last_id_of-append "0" before now) in
                let ih =
                  consume_loop-taken (before ++ now) later arrivals after.1 after.2
                    (subst AreIds still ids) last in
                rw e (
                  subst
                    (λ s.
                      consume_loop series parse_float xread (streams_of s arrivals) after.1 after.2
                      ≡ run series parse_float (taken later arrivals) after.1 after.2)
                    moved ih)
            | inr e ↦ rw e refl
          ] in
        ap (λ a. then_run a next) (reads_queue before queue new (flatten arrivals) k t ids same)
        ∙ onward
        ∙ sym (run-append now (taken later arrivals) k t)

  flatten-rest :
      (arrivals : List (List Message)) (n : ℕ)
      → flatten (arrivals ++ replicate n []) ≡ flatten arrivals
  unfolding flatten
  flatten-rest [] zero = refl
  flatten-rest [] (suc n) = flatten-rest [] n
  flatten-rest (new ∷ arrivals) n = ap (λ l. new ++ l) (flatten-rest arrivals n)

  -- Where Redis gives what it documents and drops none of the messages, and their ids differ from
  -- one another and from "0": in whatever portions the messages arrive between the reads, if at
  -- least a tenth as many reads follow as there are messages, the loop leaves what it leaves when
  -- it handles each of them once and in order, up to the first at which an exception ends it.
  pub consume_loop-once :
      (xread : Xread) (arrivals : List (List Message)) (n : ℕ) (t : Stored F)
      → IsXread xread
      → AreIds (flatten arrivals)
      → length (flatten arrivals) ≤ read_count * n
      → consume_loop series parse_float xread (streams_of [] (arrivals ++ replicate n [])) fresh t
        ≡ run series parse_float (flatten arrivals) fresh t
  consume_loop-once xread arrivals n t laws ids enough =
      consume_loop-taken xread laws [] [] (arrivals ++ replicate n []) fresh t
        (subst AreIds (sym (flatten-rest arrivals n)) ids) refl
      ∙ ap (λ ms. run series parse_float ms fresh t) (taken-all n [] arrivals enough)
