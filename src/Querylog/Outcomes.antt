-- ===== src/Querylog/Outcomes.antt =====
-- internal/querylog/logger.go: what the outcome of a query is called, from its rcode.
use s_hole.Prelude.{ℕ, Bool, not, ◌&&◌, ◌||◌, ◌==◌}
use s_hole.Dnsserver.Handler.{Record}

abbrev pub rcode_server_failure : ℕ
rcode_server_failure = 2

abbrev pub rcode_refused : ℕ
rcode_refused = 5

unfoldable pub is_unresolved : ℕ → Bool → Bool
is_unresolved rcode synthesized = synthesized && rcode == rcode_server_failure

unfoldable pub is_upstream_error : ℕ → Bool → Bool
is_upstream_error rcode synthesized =
    not synthesized && (rcode == rcode_server_failure || rcode == rcode_refused)

unfoldable pub unresolved : Record → Bool
unfolding is_unresolved
unresolved rec = is_unresolved rec.rcode rec.synthesized

unfoldable pub upstream_error : Record → Bool
unfolding is_upstream_error
upstream_error rec = is_upstream_error rec.rcode rec.synthesized

unfoldable pub failed : Record → Bool
unfolding unresolved upstream_error
failed rec = unresolved rec || upstream_error rec
