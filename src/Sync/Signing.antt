-- ===== src/Sync/Signing.antt =====
-- syncEngine.ts, buildCanonicalSigningPayload: the text that is signed for an event.
use mathlib.Core.List.Perm
use usbi.Prelude.{◌≡◌, refl, map, Perm}
use usbi.Prelude.Text.{Text}
use usbi.Prelude.TextOrder.{sort_texts-perm}
use usbi.Sync.{SyncEventRequest, SyncPayload, given, attempt_line, build_canonical_signing_payload}

-- The signed text does not depend on the order of the attempts, the streak dates or the badges of
-- the event, nor on the signature that the event carried.
pub build_canonical_signing_payload-perm :
    (r : SyncEventRequest) (p : SyncPayload) (signature : Text)
    → Perm r.payload.level_attempts p.level_attempts
    → Perm (given r.payload.daily_streak_dates) (given p.daily_streak_dates)
    → Perm (given r.payload.badge_ids_earned) (given p.badge_ids_earned)
    → build_canonical_signing_payload (record r { payload = p; hmac_signature = signature })
      ≡ build_canonical_signing_payload r
unfolding build_canonical_signing_payload
build_canonical_signing_payload-perm r p signature attempts dates badges =
    rw
      (
        sort_texts-perm (map attempt_line r.payload.level_attempts)
            (map attempt_line p.level_attempts) (Perm.map attempt_line attempts),
        sort_texts-perm (given r.payload.daily_streak_dates) (given p.daily_streak_dates) dates,
        sort_texts-perm (given r.payload.badge_ids_earned) (given p.badge_ids_earned) badges,
      )
      refl
