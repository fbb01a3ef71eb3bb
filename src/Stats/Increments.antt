-- ===== src/Stats/Increments.antt =====
-- internal/stats/stats.go: what each Record method does to the counters.
use s_hole.Prelude.{ℕ, Bool, Bytes, ◌≡◌, refl, if◌then◌else◌}
use s_hole.Stats.{
  Counter, SortSlice, add_total, add_blocked, add_cache_hit, add_cname_blocked, add_local_ptr,
  add_local_name, add_forward_failure, add_upstream_error, record_query, record_cache_hit,
  record_cname_blocked, record_local_ptr, record_local_name, record_forward_failure,
  record_upstream_error,
}

pub counts-record_query :
    (sort_slice : SortSlice) (c : Counter) (client_ip domain : Bytes) (blocked : Bool) (now : ℕ)
    → (record_query sort_slice c client_ip domain blocked now).counts
      ≡ (if blocked then add_blocked (add_total c.counts) else add_total c.counts)
unfolding record_query
counts-record_query sort_slice c client_ip domain blocked now = refl

pub counts-record_cache_hit :
    (c : Counter) (now : ℕ) → (record_cache_hit c now).counts ≡ add_cache_hit c.counts
unfolding record_cache_hit
counts-record_cache_hit c now = refl

pub counts-record_cname_blocked :
    (c : Counter) → (record_cname_blocked c).counts ≡ add_cname_blocked c.counts
unfolding record_cname_blocked
counts-record_cname_blocked c = refl

pub counts-record_local_ptr : (c : Counter) → (record_local_ptr c).counts ≡ add_local_ptr c.counts
unfolding record_local_ptr
counts-record_local_ptr c = refl

pub counts-record_local_name :
    (c : Counter) → (record_local_name c).counts ≡ add_local_name c.counts
unfolding record_local_name
counts-record_local_name c = refl

pub counts-record_forward_failure :
    (c : Counter) (now : ℕ) → (record_forward_failure c now).counts ≡ add_forward_failure c.counts
unfolding record_forward_failure
counts-record_forward_failure c now = refl

pub counts-record_upstream_error :
    (c : Counter) (now : ℕ) → (record_upstream_error c now).counts ≡ add_upstream_error c.counts
unfolding record_upstream_error
counts-record_upstream_error c now = refl
