-- ===== src/Auth/Request/Handler.antt =====
-- The handler `requestOtp` of auth.service.ts: limits, the cooldown, the new code and its publication.
use stead.Prelude.{
  ℕ, ◌+◌, ◌==◌, leb, ltb, Bool, false, ◌&&◌, ◌||◌, Option, none, some, is_some, some_eq, Result, ok,
  err, internal, too_many_requests, service_unavailable, if◌then◌else◌,
}
use stead.Auth.Otp.{
  User, OtpCode, otp_requested, otp_request_rate_limited, otp_resend_blocked, AuthEvent, Crypto,
  Limits, phone_of,
}
use stead.Notifications.{Cipher}
use stead.Notifications.Enqueue.{enqueue_otp_requested}
use stead.Auth.Request.{
  RequestSettings, CodeRequest, Response, World, Stores, hour_ms, build_otp_request_response,
  is_incomplete, request_event, is_request, new_code_row, publication, set_otps, add_event,
  delete_codes, finish,
}
use stead.Auth.Request.Replay.{replay_otp_request}

module _ (t : Stores) (c : Crypto) (l : Limits) (cipher : Cipher) (s : RequestSettings) where
  -- `countRecentEvents` of requests in the last hour.
  unfoldable pub recent_requests : (AuthEvent → Bool) → CodeRequest → World → ℕ
  recent_requests from q w =
      t.auth.events.count_where
        (λ e. is_request e.kind && leb q.now (e.created_at + hour_ms) && from e) w.db.events

  -- Whether a limit on a network address or a device is reached.
  unfoldable pub request_limited :
      Option ℕ → ℕ → (AuthEvent → Option ℕ) → CodeRequest → World → Bool
  unfolding recent_requests
  request_limited none limit field q w = false
  request_limited (some source) limit field q w =
      leb limit (recent_requests (λ e. some_eq (field e) source) q w)

  -- The codes of the phone number in the last hour.
  unfoldable pub recent_codes : ℕ → ℕ → World → ℕ
  recent_codes phone now w =
      t.auth.otps.count_where
        (λ o.
          some_eq (phone_of t.auth c l o.user_id w.db) phone && leb now (o.created_at + hour_ms))
        w.db.otps

  abbrev refuse_limited : CodeRequest → World → Result Response × World
  refuse_limited q w = (
    err too_many_requests,
    add_event t c l cipher s (request_event q otp_request_rate_limited none none) w,
  )

  -- user.upsert; `none` is an error of the database.
  unfoldable pub upsert_user : CodeRequest → World → Option (User × World)
  upsert_user q w = elim (t.auth.users.find_first (λ u. u.phone == q.phone) w.db.users) [
    | some user ↦ some (user, w)
    | none ↦
        let user : User = record { id = q.new_user; phone = q.phone; display_name = none } in
        elim (t.auth.users.create user w.db.users) [
          | none ↦ none
          | some users ↦ some (user, record w { db = record w.db { users = users } })
        ]
  ]

  -- The code that the cooldown counts from.
  unfoldable pub latest_code : CodeRequest → ℕ → World → Option OtpCode
  latest_code q user w =
      t.auth.otps.find_latest (λ o. o.user_id == user && ltb q.now (o.created_at + s.cooldown_ms))
        (λ o. o.created_at) w.db.otps

  -- What is left to do for a new row: the event, the message, and the completion. A row whose event
  -- is not stored is taken back, as far as the database lets it.
  unfoldable pub publish : CodeRequest → User → World → Result Response × World
  publish q user w =
      if q.event_stored
      then (let recorded =
            add_event t c l cipher s
              (request_event q otp_requested (some user.id) (some q.new_code)) w in
          let (sent, queue) =
            enqueue_otp_requested t.jobs cipher (publication s q user.id) recorded.queue in
          let published = record recorded { queue = queue } in
          elim sent [
            | err e ↦ (err e, published)
            | ok id ↦
                finish t c l cipher s q q.new_code (new_code_row s q user.id).development_otp
                  published
          ])
      else (
        err internal,
        elim (delete_codes t c l cipher s (is_incomplete q.new_code) w) [
          | none ↦ w
          | some (n, after) ↦ after
        ],
      )

  -- The answer while the cooldown lasts.
  unfoldable pub answer_early : CodeRequest → User → OtpCode → World → Result Response × World
  answer_early q user latest w =
      if latest.request_key_hash == q.key_hash
      then (
        (if is_some latest.request_completed_at
            then ok (build_otp_request_response s latest.development_otp)
            else err service_unavailable),
        w,
      )
      else (
        err too_many_requests,
        add_event t c l cipher s
            (request_event q otp_resend_blocked (some user.id) (some latest.id)) w,
      )

  module _ (before_delete before_create : World → World) where
    -- Another request may have used the key meanwhile.
    unfoldable pub create_code : CodeRequest → User → World → Result Response × World
    create_code q user w = elim (t.auth.otps.create (new_code_row s q user.id) w.db.otps) [
      | some otps ↦ publish q user (set_otps t c l cipher s otps w)
      | none ↦
          let (answer, after) = replay_otp_request t c l cipher s before_delete q w in
          ((elim answer [ err e ↦ err e | ok none ↦ err internal | ok (some r) ↦ ok r ]), after)
    ]

    unfoldable pub issue_code : CodeRequest → World → Result Response × World
    issue_code q w = elim (upsert_user q w) [
      | none ↦ (err internal, w)
      | some (user, known) ↦ elim (latest_code q user.id known) [
        | some latest ↦ answer_early q user latest known
        | none ↦ create_code q user (before_create known)
      ]
    ]

    unfoldable pub is_refused : CodeRequest → World → Bool
    is_refused q w =
        request_limited q.ip s.per_ip_per_hour (λ e. e.ip) q w
        || request_limited q.device s.per_device_per_hour (λ e. e.device_hash) q w
        || leb s.per_hour (recent_codes q.phone q.now w)

    unfoldable pub request_otp : Result CodeRequest → World → Result Response × World
    request_otp (err e) w = (err e, w)
    request_otp (ok q) w =
        let (replayed, after) = replay_otp_request t c l cipher s before_delete q w in
        elim replayed [
          | err e ↦ (err e, after)
          | ok (some r) ↦ (ok r, after)
          | ok none ↦ elim q.device_error [
            | some e ↦ (err e, after)
            | none ↦ if is_refused q after then refuse_limited q after else issue_code q after
          ]
        ]
