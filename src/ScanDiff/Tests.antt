-- ===== src/ScanDiff/Tests.antt =====
-- Comparisons of two small scans by scan_diff.py, and its theorems there.
use domain_lens.Prelude.{◌≡◌, refl, true, none, some, [], ◌∷◌, map, codes, All}
use domain_lens.ScanDiff.{
  Results, Severities, worse, better, unchanged, unmeasured, compare_dimensions, tls_grade,
  header_score, blacklist_count, open_ports, dnssec_signed, https_redirect_ok, security_findings,
  missing_headers, email_auth_passing, threat_feed_hits, virustotal_detections, leaked_secrets,
  vulnerable_js,
}
use domain_lens.ScanDiff.Measured.{IsHonest, compare_dimensions-IsHonest}

abbrev before : Results
before = record {
  tls_deep = some (record { success = true; grade = some (codes "A+") });
  http_headers = some (record { success = true; score = some 80; headers_missing = [] });
  blacklist = none;
  ports = some (
      some (
        record { port = codes "80"; service = [] }
        ∷ record { port = codes "443"; service = codes "HTTPS" }
        ∷ []));
  dnssec = some (record { is_measured = true; pass = some true });
  https_redirect = none;
  security = none;
  mail_checks = some (record { is_measured = true; pass = some true }) ∷ none ∷ [];
  osint = none;
  js_scan = none;
}

abbrev after : Results
after = record before {
  tls_deep = some (record { success = true; grade = some (codes "B") });
  ports = some (some (record { port = codes "443"; service = codes "HTTPS" } ∷ []));
  dnssec = none;
}

abbrev few : Severities
few = record { critical = 0; high = 1; medium = 2; low = 3 }

statuses :
    map (λ row. row.status) (compare_dimensions before after none (some few)).0
    ≡ worse ∷ unchanged ∷ unmeasured ∷ better ∷ unmeasured ∷ unmeasured ∷ unmeasured ∷ unchanged
      ∷ unchanged ∷ unmeasured ∷ unmeasured ∷ unmeasured ∷ unmeasured ∷ unmeasured ∷ []
unfolding compare_dimensions tls_grade header_score blacklist_count open_ports dnssec_signed
    https_redirect_ok security_findings missing_headers email_auth_passing threat_feed_hits
    virustotal_detections leaked_secrets vulnerable_js
statuses = refl

ports_run : open_ports before ≡ some (codes "443/HTTPS" ∷ codes "80/?" ∷ [])
unfolding open_ports
ports_run = refl

compare_dimensions-IsHonest_example :
    All IsHonest (compare_dimensions before after none (some few)).0
compare_dimensions-IsHonest_example = compare_dimensions-IsHonest before after none (some few)
