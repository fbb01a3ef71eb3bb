-- ===== src/Blocklist/Loader/Tests.antt =====
-- Runs of the loader, and the theorems about it at concrete inputs.
use s_hole.Prelude.{
  true, false, List, [], ◌∷◌, ◌++◌, map, ◌≡◌, ◌≢◌, refl, none, some, Bytes, codes, arith, text_eq,
  text_eq_iff, ◌≤◌, ◌+◌, ◌↔◌, length, All,
}
use s_hole.Prelude.Sets.{member}
use s_hole.Prelude.Text.{has_suffix}
use s_hole.Blocklist.Normalize.{normalize, ends_in, drop_last, lower_byte, strip_dot}
use s_hole.Blocklist.Store.{set_sources, Store, new_store}
use s_hole.Blocklist.Store.Lookup.{is_blocked, is_allowlisted}
use s_hole.Blocklist.Store.Lookup.Suffixes.{IsUnder}
use s_hole.Blocklist.Loader.Domains.{valid_domain, is_localhost_name}
use s_hole.Blocklist.Loader.Domains.Labels.{labels, IsLabel}
use s_hole.Blocklist.Loader.Domains.Valid.{valid_domain_iff}
use s_hole.Blocklist.Loader.Hosts.{lines, scan, Reader, parse_hosts_format}
use s_hole.Blocklist.Loader.Hosts.Counts.{IsKept, content_lines, parse_hosts_format-IsKept}
use s_hole.Blocklist.Loader.Hosts.Printed.{
  LineFormat, IsEntry, plain, wildcard, hosts, print_lines, end_lines, parse_hosts_format-print,
}
use s_hole.Blocklist.Loader.Files.{
  tmp_of, rename, CacheFile, Files, stat, cache_filename, purge_cache,
}
use s_hole.Blocklist.Loader.Fetch.{
  cache_first, download_first, from_download, from_cache, from_stale_cache, stopped_after, Loaded,
  loaded, Attempt, no_response, response, fetch_list, check_redirect,
}
use s_hole.Blocklist.Loader.Fetch.Copies.{IsReadable}
use s_hole.Blocklist.Loader.Fetch.Served.{IsServing, fetch_list-IsServing}
use s_hole.Blocklist.Loader.Fetch.Downloads.{IsDownload, fetch_list-IsDownload}
use s_hole.Blocklist.Loader.Fetch.Restart.{fetch_list-restart}
use s_hole.Blocklist.Loader.Fetch.Redirects.{
  IsSecureChain, start, follow, check_redirect-IsSecureChain,
}
use s_hole.Blocklist.Loader.Update.{update}
use s_hole.Blocklist.Loader.Update.Outcome.{
  results, statuses, last_error, loaded_count, domains_of, update-all_failed, update-is_blocked_iff,
}

abbrev lower : Bytes → Bytes
lower = map lower_byte

abbrev digest : Bytes → Bytes
digest s = s

abbrev list_text : Bytes
list_text =
    codes "# ads"
    ++ 10 ∷ codes "0.0.0.0 Ads.example.com"
    ++ 13 ∷ 10 ∷ codes "||track.net^"
    ++ 10 ∷ codes " *.bad.org "
    ++ 10 ∷ codes "127.0.0.1 localhost.localdomain"

abbrev list_reader : Reader
list_reader = record { content = list_text; failure = none }

abbrev list_domains : List Bytes
list_domains = codes "Ads.example.com" ∷ codes "bad.org" ∷ []

code : Unit {0}
unfolding ends_in drop_last strip_dot lower_byte has_suffix valid_domain is_localhost_name
    parse_hosts_format stat rename cache_filename tmp_of fetch_list check_redirect update
    purge_cache
code = tt

differs : (a b : Bytes) → text_eq a b ≡ false → a ≢ b
differs a b h e = ground (arith, h, (text_eq_iff a b).1 e)

reads_list : parse_hosts_format lower list_reader ≡ (list_domains, 2, none)
unfolding code
reads_list = refl

abbrev url : Bytes
url = codes "https://lists.example/hosts"

abbrev name : Bytes
name = codes "blocklist_https://lists.example/hosts.txt"

-- A copy written at the time 5, and the answers to two calls: a download at the time 10, and none.
abbrev old_copy : CacheFile
old_copy = record {
  modified = 5;
  open_error = none;
  remove_error = none;
  reader = record { content = codes "old.example"; failure = none };
}

abbrev other_file : CacheFile
other_file = record old_copy { modified = 1 }

abbrev disk : Files
disk = (name, old_copy) ∷ (codes "s-hole.db", other_file) ∷ []

abbrev online : Attempt
online = record {
  answer = response 200 list_reader;
  now = 10;
  create_error = none;
  write_error = none;
  close_error = none;
  rename_error = none;
  discard_error = none;
}

abbrev offline : Attempt
offline = record online { answer = no_response (codes "timeout"); now = 20 }

abbrev fresh : Loaded
fresh = record { domains = list_domains; from = from_download; snapshot = 10; skipped = 2 }

abbrev new_copy : CacheFile
new_copy = record old_copy { modified = 10; reader = list_reader }

abbrev after_download : Files
after_download = (name, new_copy) ∷ (codes "s-hole.db", other_file) ∷ []

downloads : fetch_list lower digest url download_first online disk ≡ (loaded fresh, after_download)
unfolding code
downloads = refl

falls_back :
    (fetch_list lower digest url download_first offline disk).0
    ≡ loaded (record {
      domains = codes "old.example" ∷ [];
      from = from_stale_cache;
      snapshot = 5;
      skipped = 0;
    })
unfolding code
falls_back = refl

abbrev secure : Bytes
secure = codes "https"

abbrev five : List Bytes
five = secure ∷ secure ∷ secure ∷ secure ∷ secure ∷ []

too_many_redirects : check_redirect (codes "https") (five ++ five) ≡ some (stopped_after 10)
unfolding code
too_many_redirects = refl

valid_domain_iff_example : (valid_domain (codes "Ads.example.com.") ≡ true) ↔ (
    (length (codes "Ads.example.com.") ≤ 253)
    × (2 ≤ length (labels (strip_dot (codes "Ads.example.com."))))
    × All IsLabel (labels (strip_dot (codes "Ads.example.com."))))
valid_domain_iff_example = valid_domain_iff (codes "Ads.example.com.")

parse_hosts_format-IsKept_example :
    All (IsKept lower) (parse_hosts_format lower list_reader).0
    × (length (parse_hosts_format lower list_reader).0 + (parse_hosts_format lower list_reader).1
        ≡ content_lines lower (scan (lines list_reader.content) list_reader.failure).0)
parse_hosts_format-IsKept_example = parse_hosts_format-IsKept lower list_reader

abbrev entries : List (LineFormat × Bytes)
entries =
    (hosts, codes "ads.example.com")
    ∷ (plain, codes "Bad.org")
    ∷ (wildcard, codes "x_y.track.net")
    ∷ []

entries-IsEntry : All (IsEntry lower) entries
unfolding code
entries-IsEntry = (
  ((refl, refl), differs _ _ refl),
  (((refl, refl), differs _ _ refl), (((refl, refl), differs _ _ refl), tt)),
)

parse_hosts_format-print_example :
    parse_hosts_format lower (record { content = end_lines (print_lines entries); failure = none })
    ≡ (map (λ (format, d). d) entries, 0, none)
parse_hosts_format-print_example = parse_hosts_format-print lower entries entries-IsEntry

copy_there : stat (cache_filename digest url) disk ≡ some old_copy
unfolding code
copy_there = refl

old_copy-IsReadable : IsReadable lower digest old_copy
unfolding code
old_copy-IsReadable = (refl, refl)

fetch_list-IsServing_example :
    IsServing lower digest url offline old_copy
      (fetch_list lower digest url download_first offline disk)
fetch_list-IsServing_example =
    fetch_list-IsServing lower digest url download_first offline disk old_copy (λ e h. cc)
      copy_there old_copy-IsReadable

fetch_list-IsDownload_example :
    IsDownload lower digest (cache_filename digest url) online fresh after_download
fetch_list-IsDownload_example =
    fetch_list-IsDownload lower digest url download_first online disk after_download fresh downloads
      refl

fetch_list-restart_example : fetch_list lower digest url cache_first offline after_download ≡ (
  loaded (record { domains = list_domains; from = from_cache; snapshot = 10; skipped = 2 }),
  after_download,
)
fetch_list-restart_example =
    fetch_list-restart lower digest url download_first online offline disk after_download fresh
      downloads refl refl refl (omega arith)

stays : check_redirect (codes "https") (codes "https" ∷ []) ≡ none
unfolding code
stays = refl

check_redirect-IsSecureChain_example : IsSecureChain (codes "https" ∷ codes "https" ∷ [])
check_redirect-IsSecureChain_example =
    check_redirect-IsSecureChain (codes "https" ∷ codes "https" ∷ [])
      (follow (codes "https") (codes "https" ∷ []) (start (codes "https")) stays)

abbrev before : Store
before = record new_store { blocked = codes "blocked.test" ∷ [] }

abbrev calls : List (Bytes × Attempt)
calls = (codes "https://other.example/", offline) ∷ (url, online) ∷ []

abbrev gone : List (Bytes × Attempt)
gone = (codes "https://other.example/", offline) ∷ []

none_of_them : loaded_count (results lower digest download_first gone disk) ≡ 0
unfolding code
none_of_them = refl

update-all_failed_example :
    ((update lower digest download_first before gone disk).0
      ≡ set_sources before (statuses (results lower digest download_first gone disk)))
    × ((update lower digest download_first before gone disk).2
        ≡ last_error none (results lower digest download_first gone disk))
    × (last_error none (results lower digest download_first gone disk) ≢ none)
update-all_failed_example =
    update-all_failed lower digest download_first before gone disk (λ e. cc) none_of_them

one_of_them : loaded_count (results lower digest download_first calls disk) ≢ 0
unfolding code
one_of_them e = cc

update-is_blocked_iff_example :
    ((update lower digest download_first before calls disk).2 ≡ none)
    × ((update lower digest download_first before calls disk).0.sources
        ≡ some (statuses (results lower digest download_first calls disk)))
    × ((is_blocked lower
            (update lower digest download_first before calls disk).0
            (codes "x.bad.org")
          ≡ true)
        ↔ (((d : Bytes) × (member d (domains_of (results lower digest download_first calls disk))
                ≡ true)
              × IsUnder (normalize lower (codes "x.bad.org")) (normalize lower d))
            × (is_allowlisted lower before (codes "x.bad.org") ≡ false)))
update-is_blocked_iff_example =
    update-is_blocked_iff lower digest download_first before calls disk (codes "x.bad.org")
      one_of_them
