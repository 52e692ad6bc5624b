-- ===== src/Authz/Policy/Subjects.antt =====
-- internal/authz/authz.go: which subjects the rules of a validated policy apply to.
use nats_jwt_callout.Identity.{Identity}
