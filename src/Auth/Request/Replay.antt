-- ===== src/Auth/Request/Replay.antt =====
-- `replayOtpRequest` of auth.service.ts: a request by the idempotency key of an earlier one.
use stead.Prelude.{
  ◌+◌, ◌==◌, leb, Bool, ◌||◌, Option, none, some, some_eq, Result, ok, err, conflict, internal,
  service_unavailable, if◌then◌else◌,
}
use stead.Auth.Otp.{OtpCode, Crypto, Limits, phone_of}
use stead.Notifications.{Cipher}
use stead.Notifications.Enqueue.{is_otp_request_enqueued, adopt_legacy_otp_request}
use stead.Auth.Request.{
  RequestSettings, CodeRequest, Response, World, Stores, build_otp_request_response,
  has_request_key, is_abandoned, legacy_request, processing_timeout_ms, delete_codes, finish,
}

-- What others do to the tables between the awaits of a request.
module _ (t : Stores) (c : Crypto) (l : Limits) (cipher : Cipher) (s : RequestSettings)
    (others : World → World) where
  abbrev pub enqueued : CodeRequest → OtpCode → World → Bool
  enqueued q existing w =
      is_otp_request_enqueued t.jobs (s.dedupe_key q.key_hash) existing.id w.queue.jobs

  -- The removal of an abandoned request; `none` leads to a new code.
  unfoldable pub remove_abandoned : CodeRequest → OtpCode → World → Result (Option Response) × World
  remove_abandoned q existing w =
      elim (delete_codes t c l cipher s (is_abandoned existing.id q.now) w) [
        | some (n, after) ↦ if n == 1 then (ok none, after) else (err service_unavailable, after)
        | none ↦
            let (answer, after) = finish t c l cipher s q existing.id existing.development_otp w in
            if enqueued q existing w
            then ((elim answer [ ok r ↦ ok (some r) | err e ↦ err e ]), after)
            else (err internal, w)
      ]

  -- A row whose request was not completed: its job is looked for, or one from before jobs were
  -- linked to codes.
  unfoldable pub resume : CodeRequest → OtpCode → World → Result (Option Response) × World
  unfolding remove_abandoned
  resume q existing w =
      let (adopted, queue) =
        adopt_legacy_otp_request t.jobs (legacy_request s q existing) w.queue in
      let looked = if enqueued q existing w then w else record w { queue = queue } in
      if enqueued q existing w || adopted
      then (let (answer, after) =
            finish t c l cipher s q existing.id existing.development_otp looked in
          ((elim answer [ ok r ↦ ok (some r) | err e ↦ err e ]), after))
      else if leb (existing.created_at + processing_timeout_ms) q.now
      then remove_abandoned q existing (others looked)
      else (err service_unavailable, looked)

  -- `none` where the idempotency key is new.
  unfoldable pub replay_otp_request : CodeRequest → World → Result (Option Response) × World
  unfolding resume
  replay_otp_request q w = elim (t.auth.otps.find_first (has_request_key q.key_hash) w.db.otps) [
    | none ↦ (ok none, w)
    | some existing ↦
        if some_eq (phone_of t.auth c l existing.user_id w.db) q.phone
        then (elim existing.request_completed_at [
          | none ↦ resume q existing w
          | some at ↦ (ok (some (build_otp_request_response s existing.development_otp)), w)
        ])
        else (err conflict, w)
  ]
