-- ===== src/Daemon/Control/Api/Query.antt =====
-- What a client asks of a node's log is what the node reads (internal/fleet/client.go,
-- internal/daemon/api.go).
use spinloop.Prelude.{
  ℕ, zero, suc, String, true, false, ◌≡◌, refl, ap, Option, some, arith, if◌then◌else◌, ltb, ◌==◌,
}
use spinloop.Prelude.Int.{ℤ, pos, negsuc, eq_ℤ, lt_ℤ}
use spinloop.Prelude.Result.{ok}
use spinloop.Fleet.Tags.{is_empty}
use spinloop.Daemon.Logs.{LogFile, read_log, clamp_log_read}
use spinloop.Daemon.Logs.Slice.{read_log-clamp_log_read}
use spinloop.Daemon.Control.Api.{
  refuses, negative_offset, handle_logs, int64_param, log_reply, tail_log, bad_offset,
}

-- The parameters of the query that `Client.Logs` sends, the empty text for one that it leaves out;
-- `show` is strconv's.
unfoldable pub logs_query : (ℤ → String) → ℤ → ℤ → String × String
logs_query show offset limit = (
  if eq_ℤ offset tail_log then "" else show offset,
  if lt_ℤ (pos 0) limit then show limit else "",
)

ltb-suc : (m : ℕ) → ltb 0 (suc m) ≡ true
ltb-suc m = ground arith

suc-test : (n : ℕ) → (suc n == 0) ≡ false
suc-test n = ground arith

-- The limit that arrives: none, or one below 1, is 0.
abbrev sent_limit : ℤ → ℤ
sent_limit limit = if lt_ℤ (pos 0) limit then limit else pos 0

clamp_log_read-sent_limit : (l : ℤ) → clamp_log_read (sent_limit l) ≡ clamp_log_read l
unfolding clamp_log_read
clamp_log_read-sent_limit (pos zero) = refl
clamp_log_read-sent_limit (pos (suc m)) =
    ap clamp_log_read {x = sent_limit (pos (suc m))} {y = pos (suc m)} (rw (ltb-suc m))
clamp_log_read-sent_limit (negsuc m) = refl

bad_offset-lt_ℤ : (z : ℤ) → bad_offset z ≡ lt_ℤ z tail_log
bad_offset-lt_ℤ (pos n) = refl
bad_offset-lt_ℤ (negsuc n) = refl

module _ (show : ℤ → String) (parse : String → Option ℤ) (back : (z : ℤ) → parse (show z) ≡ some z)
    (filled : (z : ℤ) → is_empty (show z) ≡ false) where
  sent_param : (name : String) (z missing : ℤ) → int64_param parse name (show z) missing ≡ ok z
  unfolding int64_param
  sent_param name z missing = rw (filled z, back z)

  missing_param : (name : String) (z : ℤ) → int64_param parse name "" z ≡ ok z
  unfolding int64_param
  missing_param name z = refl

  offset_text : (n : ℕ) (l : ℤ) → (logs_query show (negsuc (suc n)) l).0 ≡ show (negsuc (suc n))
  unfolding logs_query
  offset_text n l = rw (suc-test n)

  limit_text : (z : ℤ) (m : ℕ) → (logs_query show z (pos (suc m))).1 ≡ show (pos (suc m))
  unfolding logs_query
  limit_text z m = rw (ltb-suc m)

  sent_limit-pos : (m : ℕ) → sent_limit (pos (suc m)) ≡ pos (suc m)
  sent_limit-pos m = rw (ltb-suc m)

  texts :
      (n : ℕ) (z l : ℤ)
      → ((logs_query show (pos n) l).0 ≡ show (pos n))
        × ((logs_query show (negsuc zero) l).0 ≡ "")
        × ((logs_query show z (pos zero)).1 ≡ "")
        × ((logs_query show z (negsuc n)).1 ≡ "")
  unfolding logs_query
  texts n z l = (refl, refl, refl, refl)

  offset_param : (z l : ℤ) → int64_param parse "offset" (logs_query show z l).0 tail_log ≡ ok z
  offset_param (pos n) l = rw ((texts n (pos n) l).0) (sent_param "offset" (pos n) tail_log)
  offset_param (negsuc zero) l = rw ((texts 0 (pos 0) l).1) (missing_param "offset" tail_log)
  offset_param (negsuc (suc n)) l =
      rw (offset_text n l) (sent_param "offset" (negsuc (suc n)) tail_log)

  limit_param :
      (z l : ℤ) → int64_param parse "limit" (logs_query show z l).1 (pos 0) ≡ ok (sent_limit l)
  limit_param z (pos zero) = rw ((texts 0 z z).2) (missing_param "limit" (pos 0))
  limit_param z (pos (suc m)) =
      rw (limit_text z m, sent_limit-pos m) (sent_param "limit" (pos (suc m)) (pos 0))
  limit_param z (negsuc m) = rw ((texts m z z).3) (missing_param "limit" (pos 0))

-- A client that asks for the log from an offset, or for its end, gets what one read of the log with
-- that offset and that limit gives, an error of the read included; an offset below that of the end
-- is refused. What strconv prints is read back, and never empty.
pub handle_logs-query :
    (show : ℤ → String) (parse : String → Option ℤ) (path : String) (file : LogFile)
    (offset limit : ℤ)
    → ((z : ℤ) → parse (show z) ≡ some z)
    → ((z : ℤ) → is_empty (show z) ≡ false)
    → let q = logs_query show offset limit in
      handle_logs parse path file q.0 q.1 ≡ (
        if lt_ℤ offset tail_log
        then refuses 400 negative_offset
        else log_reply (read_log path offset limit file))
unfolding handle_logs
handle_logs-query show parse path file offset limit back filled =
    simp
      (
        offset_param show parse back filled offset limit,
        limit_param show parse back filled offset limit,
      )
      (rw (
        bad_offset-lt_ℤ offset,
        read_log-clamp_log_read path offset (sent_limit limit) limit file
            (clamp_log_read-sent_limit limit),
      ))
