-- ===== src/Backend/Pingd/Report.antt =====
-- A client of the daemon: each node is up or down by the time that the daemon heard from it.
use whatsup.Prelude.{
  ℕ, ◌+◌, ◌-◌, ◌%◌, ◌^◌, ◌≤◌, ◌<◌, ◌≡◌, refl, ap, ◌∙◌, true, false, Option, some, List, [], ◌∷◌,
  Name, length, map, is_empty, ltb, leb, ◌==◌, if◌then◌else◌, All, arith, if-cases,
}
use whatsup.Handle.State.{State}
use whatsup.Module.Info.{DevelApi}
use whatsup.Pingd.Nodes.{PingdInfo}
use whatsup.Pingd.Server.{
  Write, wrote, ping_line, after_write, send_lines, send_ping_data, pingd_buflen,
}
use whatsup.Backend.Pingd.{seconds_apart, add_scanned, with_line, read_nodes, ignoring}
use whatsup.Backend.Pingd.Protocol.{IsHostName, sscanf-ping_line, length-ping_line}

-- The distance of two times.
abbrev pub distance : ℕ → ℕ → ℕ
distance t u = (t - u) + (u - t)

ltb-true : (a b : ℕ) → ltb a b ≡ true → a < b
ltb-true a b h = ground (arith, h)

ltb-false : (a b : ℕ) → ltb a b ≡ false → b ≤ a
ltb-false a b h = ground (arith, h)

-- Two times of an `unsigned long` that are less than 2^31 seconds apart have that distance in the
-- arithmetic of the module.
pub seconds_apart-distance :
    (localtime tv_sec : ℕ)
    → localtime < 2 ^ 64
    → tv_sec < 2 ^ 64
    → distance localtime tv_sec < 2 ^ 31
    → seconds_apart localtime tv_sec ≡ distance localtime tv_sec
unfolding seconds_apart
seconds_apart-distance localtime tv_sec h k d =
    let difference = ((localtime + (2 ^ 64 - tv_sec % 2 ^ 64)) % 2 ^ 64) % 2 ^ 32 in
    if-cases (λ r. r ≡ distance localtime tv_sec) (ltb difference (2 ^ 31)) _ _
      (λ e. omega (arith, h, k, d, ltb-true difference (2 ^ 31) e))
      (λ e. omega (arith, h, k, d, ltb-false difference (2 ^ 31) e))

nonempty_line : (host : Name) (t : ℕ) → is_empty (ping_line host t) ≡ false
unfolding ping_line
nonempty_line [] t = refl
nonempty_line (c ∷ cs) t = refl

==_refl : (n : ℕ) → (n == n) ≡ true
==_refl n = ground arith

not_leb : (n : ℕ) → n ≤ 86 → leb pingd_buflen n ≡ false
not_leb n h = ground (arith, h)

short_line :
    (host : Name) (t : ℕ) → IsHostName host → leb pingd_buflen (length (ping_line host t)) ≡ false
short_line host t h =
    let short = length-ping_line host t h.fits in not_leb (length (ping_line host t)) short

-- The nodes of the daemon are reported in order: up if the daemon heard from them less than the
-- timeout before or after the client's time, down otherwise.
module _ {H T V A : Type 0} (devel : DevelApi H T) (tv_sec : V → ℕ) (now timeout_len : ℕ) where
  abbrev pub report_node : PingdInfo V A → State H T → State H T
  report_node info s =
      if ltb (distance (tv_sec info.last_received) now) timeout_len
      then ignoring (devel.add_up_node info.hostname) s
      else ignoring (devel.add_down_node info.hostname) s

  abbrev pub report : List (PingdInfo V A) → State H T → State H T
  report [] s = s
  report (info ∷ infos) s = report infos (report_node info s)

  -- The name fits, and the time is close enough for the arithmetic of the module.
  abbrev pub IsReportable : PingdInfo V A → Type 0
  IsReportable info =
      IsHostName info.hostname
      × (tv_sec info.last_received < 2 ^ 64)
      × (distance (tv_sec info.last_received) now < 2 ^ 31)

  abbrev pub line_of : PingdInfo V A → Name
  line_of info = ping_line info.hostname (tv_sec info.last_received)

  add_scanned-report_node :
      (info : PingdInfo V A) (s : State H T)
      → now < 2 ^ 64
      → IsReportable info
      → add_scanned devel now timeout_len (info.hostname, tv_sec info.last_received % 2 ^ 64) s
        ≡ report_node info s
  unfolding add_scanned
  add_scanned-report_node info s n (host, small, close) =
      let t = tv_sec info.last_received in
      let same : t % 2 ^ 64 ≡ t = omega (arith, small) in
      rw same (rw (seconds_apart-distance t now small n close) refl)

  read_nodes-line :
      (info : PingdInfo V A) (reads : List (Option Name)) (s : State H T)
      → now < 2 ^ 64
      → IsReportable info
      → read_nodes devel now timeout_len (some (line_of info) ∷ reads) s
        ≡ read_nodes devel now timeout_len reads (report_node info s)
  unfolding read_nodes with_line
  read_nodes-line info reads s n h =
      let t = tv_sec info.last_received in
      rw (nonempty_line info.hostname t) (
        rw (sscanf-ping_line info.hostname t h.0)
          (ap (read_nodes devel now timeout_len reads) (add_scanned-report_node info s n h)))

  read_nodes-lines :
      (infos : List (PingdInfo V A)) (s : State H T)
      → now < 2 ^ 64
      → All IsReportable infos
      → read_nodes devel now timeout_len (map some (map line_of infos)) s
        ≡ (some tt, report infos s)
  unfolding read_nodes
  read_nodes-lines [] s n h = refl
  read_nodes-lines (info ∷ infos) s n h =
      read_nodes-line info (map some (map line_of infos)) s n h.0
      ∙ read_nodes-lines infos (report_node info s) n h.1

  send_lines-written :
      (fd_write_n : Name → Write) (infos : List (PingdInfo V A))
      → ((line : Name) → fd_write_n line ≡ wrote (length line))
      → All IsReportable infos
      → send_lines tv_sec fd_write_n infos ≡ some (map line_of infos)
  unfolding send_lines after_write
  send_lines-written fd_write_n [] full h = refl
  send_lines-written fd_write_n (info ∷ infos) full h =
      let t = tv_sec info.last_received in
      rw (short_line info.hostname t h.0.0) (
        rw (full (line_of info)) (
          rw (send_lines-written fd_write_n infos full h.1)
            (rw (==_refl (length (line_of info))) refl)))

  -- If every write of the daemon is complete, the names of the nodes have 1 to 64 bytes, none of them
  -- a blank or '\0', and the times are less than 2^31 seconds apart from that of the client, then the
  -- daemon sends a line for each node, and the module, when it reads these lines, adds every node in
  -- order: as an up node if the daemon heard from it less than the timeout before or after the
  -- client's time, and as a down node otherwise.
  pub read_nodes-send_ping_data :
      (fd_write_n : Name → Write) (infos : List (PingdInfo V A)) (s : State H T)
      → ((line : Name) → fd_write_n line ≡ wrote (length line))
      → now < 2 ^ 64
      → All IsReportable infos
      → (send_ping_data tv_sec fd_write_n true true infos ≡ some (map line_of infos))
        × (read_nodes devel now timeout_len (map some (map line_of infos)) s
            ≡ (some tt, report infos s))
  unfolding send_ping_data
  read_nodes-send_ping_data fd_write_n infos s full n h =
      (send_lines-written fd_write_n infos full h, read_nodes-lines infos s n h)
