-- ===== src/Setup/Ready.antt =====
-- What the checks of `parse_config` and `main` say of a schedule before its requests are generated.
use Prim.Native.String.{String}
use psp.Base.{
  ℕ, zero, suc, ◌+◌, ◌≤◌, ◌<◌, ◌≡◌, refl, ◌∙◌, Bool, true, false, Option, none, some, List, [], ◌∷◌,
  length, All, ltb, ltb→lt, ◌==◌, ==→eq, arith, add64, Run, ok, Stops, Stops-ok, Stops-panic,
  Stops-bind, Stops-weaken, if◌then◌else◌,
}
use psp.ClientTypes.{PktType, str_to_ptype, psp_mb, ix, raw, other}
use psp.Sampling.{at}
use psp.Setup.{
  Settings, ScheduleNode, Arguments, defined, require, is_raw, is_timed, read_cmds, read_lists,
  read_times, times_for, read_requests, read_schedule, read_schedules, read_workers,
  default_schedule,
}

-- A request that is generated reads its work time inside `reqs_us`, and there is a command for each
-- kind of request.
pub record IsReady (s : Settings) : Type 0 where
  pub times : is_timed s.ptype ≡ true → length s.reqs_us ≡ s.n_ratios
  pub commands : All (λ r. 1 ≤ length r) s.requests_str
  pub limit : s.max_duration ≡ add64 s.duration 5

pub Stops-at :
    {A : Type 0} (from : List A) (i : ℕ)
    → Stops (λ x. (at from i ≡ ok x) × (i < length from)) (at from i)
unfolding at Stops
Stops-at [] zero = tt
Stops-at [] (suc i) = tt
Stops-at (x ∷ xs) zero = (refl, omega arith)
Stops-at (x ∷ xs) (suc i) =
    Stops-weaken (λ y. (at xs i ≡ ok y) × (i < length xs))
      (λ y. (at xs i ≡ ok y) × (suc i < length (x ∷ xs))) (at xs i) (Stops-at xs i)
      (λ y h. (h.0, omega (arith, h.1)))

pub Stops-defined : {A : Type 0} (o : Option A) → Stops (λ a. o ≡ some a) (defined o)
unfolding Stops
Stops-defined none = tt
Stops-defined (some a) = refl

pub Stops-require {ℓ} :
    {A : Type ℓ} (P : A → Type 0) (b : Bool) (r : Run A)
    → (b ≡ true → Stops P r)
    → Stops P (require b r)
Stops-require P true r h = h refl
Stops-require P false r h = Stops-panic P

-- the lists of commands that were read
abbrev pub HasCommands : List (List String) → Type 0
HasCommands = All (λ r. 1 ≤ length r)

module _ (file_lines : String → Option (List String)) (stoi : String → Option ℕ) where
  read_lists-HasCommands :
      (files : List String)
      → Stops (λ rs. (length rs ≡ length files) × HasCommands rs) (read_lists file_lines stoi files)
  unfolding read_lists read_cmds
  read_lists-HasCommands [] = Stops-ok (λ rs. (length rs ≡ 0) × HasCommands rs) [] (refl, tt)
  read_lists-HasCommands (file ∷ files) =
      let Q : List (List String) → Type 0 =
        λ rs. (length rs ≡ suc (length files)) × HasCommands rs in
      Stops-bind (λ r. file_lines file ≡ some r) Q (defined (file_lines file)) _
        (Stops-defined (file_lines file))
        (λ r is. Stops-require Q (ltb 0 (length r)) _ (λ pos.
          Stops-bind (λ rs. (length rs ≡ length files) × HasCommands rs) Q
            (read_lists file_lines stoi files) _ (read_lists-HasCommands files)
            (λ rs h.
              Stops-ok Q (r ∷ rs)
                (omega (arith, h.0), (omega (arith, ltb→lt 0 (length r) pos), h.1)))))

  read_times-length :
      (rs : List (List String))
      → Stops (λ ts. length ts ≡ length rs) (read_times file_lines stoi rs)
  unfolding read_times
  read_times-length [] = Stops-ok (λ ts. length ts ≡ 0) [] refl
  read_times-length (r ∷ rs) =
      let Q : List ℕ → Type 0 = λ ts. length ts ≡ suc (length rs) in
      Stops-bind (λ cmd. (at r 0 ≡ ok cmd) × (0 < length r)) Q (at r 0) _ (Stops-at r 0)
        (λ cmd h.
          Stops-bind (λ t. stoi cmd ≡ some t) Q (defined (stoi cmd)) _ (Stops-defined (stoi cmd))
            (λ t is.
              Stops-bind (λ ts. length ts ≡ length rs) Q (read_times file_lines stoi rs) _
                (read_times-length rs) (λ ts same. Stops-ok Q (t ∷ ts) (omega (arith, same)))))

  timed :
      (rs : List (List String))
      → Stops (λ ts. true ≡ true → length ts ≡ length rs) (read_times file_lines stoi rs)
  timed rs =
      Stops-weaken (λ ts. length ts ≡ length rs) (λ ts. true ≡ true → length ts ≡ length rs)
        (read_times file_lines stoi rs) (read_times-length rs) (λ ts h e. h)

  untimed :
      (rs : List (List String))
      → Stops {A = List ℕ} (λ ts. false ≡ true → length ts ≡ length rs) (ok [])
  untimed rs = Stops-ok (λ ts. false ≡ true → length ts ≡ length rs) [] (λ e. ground arith)

  times_for-length :
      (t : PktType) (rs : List (List String))
      → Stops (λ ts. is_timed t ≡ true → length ts ≡ length rs) (times_for file_lines stoi t rs)
  times_for-length psp_mb rs = timed rs
  times_for-length ix rs = timed rs
  times_for-length raw rs = untimed rs
  times_for-length other rs = untimed rs

  -- the requests and work times fit the type and the number of the ratios
  abbrev Fits : PktType → ℕ → List (List String) × List ℕ → Type 0
  Fits t n (rs, ts) = (is_timed t ≡ true → length ts ≡ n) × HasCommands rs

  read_requests-Fits :
      (t : PktType) (n : ℕ) (files : Option (List String)) (means : Option (List ℕ))
      → Stops (Fits t n) (read_requests file_lines stoi t n files means)
  unfolding read_requests
  read_requests-Fits t n (some files) means =
      Stops-require (Fits t n) (length files == n) _ (λ same.
        Stops-bind (λ rs. (length rs ≡ length files) × HasCommands rs) (Fits t n)
          (read_lists file_lines stoi files) _ (read_lists-HasCommands files)
          (λ rs h.
            Stops-bind (λ ts. is_timed t ≡ true → length ts ≡ length rs) (Fits t n)
              (times_for file_lines stoi t rs) _ (times_for-length t rs)
              (λ ts g.
                Stops-ok (Fits t n) (rs, ts)
                  ((λ is. g is ∙ h.0 ∙ ==→eq (length files) n same), h.1))))
  read_requests-Fits t n none means =
      Stops-bind (λ ts. means ≡ some ts) (Fits t n) (defined means) _ (Stops-defined means)
        (λ ts is.
          Stops-require (Fits t n) (length ts == n) _
            (λ same. Stops-ok (Fits t n) ([], ts) ((λ is'. ==→eq (length ts) n same), tt)))

  -- a number is read, or not
  size-any :
      (b : Bool) (r : Run ℕ)
      → Stops (λ n. Unit {0}) r
      → Stops (λ n. Unit {0}) (if b then r else ok 0)
  size-any true r h = h
  size-any false r h = Stops-ok (λ n. Unit) 0 tt

  read_schedule-IsReady :
      (i : ℕ) (node : ScheduleNode) → Stops IsReady (read_schedule file_lines stoi i node)
  unfolding read_schedule
  read_schedule-IsReady i node =
      let t : PktType = str_to_ptype node.ptype in
      Stops-bind (λ n. Unit) IsReady (if is_raw t then defined node.pkt_size else ok 0) _
        (size-any (is_raw t) (defined node.pkt_size) (
          Stops-weaken (λ n. node.pkt_size ≡ some n) (λ n. Unit) (defined node.pkt_size)
            (Stops-defined node.pkt_size) (λ n e. tt)))
        (λ size u.
          Stops-bind (Fits t node.n_ratios) IsReady
            (read_requests file_lines stoi t node.n_ratios node.cmd_lists node.cmd_mean_ns) _
            (read_requests-Fits t node.n_ratios node.cmd_lists node.cmd_mean_ns)
            (λ rs h. Stops-ok IsReady _ (record { times = h.0; commands = h.1; limit = refl })))

  read_schedules-IsReady :
      (i : ℕ) (nodes : List ScheduleNode)
      → Stops (All IsReady) (read_schedules file_lines stoi i nodes)
  unfolding read_schedules
  read_schedules-IsReady i [] = Stops-ok (All IsReady) [] tt
  read_schedules-IsReady i (node ∷ nodes) =
      Stops-bind IsReady (All IsReady) (read_schedule file_lines stoi i node) _
        (read_schedule-IsReady i node)
        (λ s h.
          Stops-bind (All IsReady) (All IsReady) (read_schedules file_lines stoi (i + 1) nodes) _
            (read_schedules-IsReady (i + 1) nodes)
            (λ ss hs. Stops-ok (All IsReady) (s ∷ ss) (h, hs)))

  pub read_workers-IsReady :
      (n : ℕ) (nodes : List ScheduleNode)
      → Stops (λ ws. (length ws ≡ n) × All (All IsReady) ws) (read_workers file_lines stoi n nodes)
  unfolding read_workers
  read_workers-IsReady zero nodes =
      Stops-ok (λ ws. (length ws ≡ 0) × All (All IsReady) ws) [] (refl, tt)
  read_workers-IsReady (suc n) nodes =
      let Q : List (List Settings) → Type 0 = λ ws. (length ws ≡ suc n) × All (All IsReady) ws in
      Stops-bind (All IsReady) Q (read_schedules file_lines stoi 0 nodes) _
        (read_schedules-IsReady 0 nodes)
        (λ ss hs.
          Stops-bind (λ ws. (length ws ≡ n) × All (All IsReady) ws) Q
            (read_workers file_lines stoi n nodes) _ (read_workers-IsReady n nodes)
            (λ ws h. Stops-ok Q (ss ∷ ws) (omega (arith, h.0), (hs, h.1))))

  pub default_schedule-IsReady :
      (args : Arguments) → Stops IsReady (default_schedule file_lines stoi args)
  unfolding default_schedule
  default_schedule-IsReady args =
      let t : PktType = if args.ix_reqs then ix else if args.mb_reqs then psp_mb else raw in
      Stops-require IsReady (length args.cmd_lists == args.n_ratios) _ (λ same.
        Stops-bind (λ rs. (length rs ≡ length args.cmd_lists) × HasCommands rs) IsReady
          (read_lists file_lines stoi args.cmd_lists) _ (read_lists-HasCommands args.cmd_lists)
          (λ rs h.
            Stops-bind (λ n. Unit) IsReady
              (if is_raw t then require (ltb 0 args.pkt_size) (ok args.pkt_size) else ok 0) _
              (size-any (is_raw t) (require (ltb 0 args.pkt_size) (ok args.pkt_size)) (
                Stops-require (λ n. Unit) (ltb 0 args.pkt_size) (ok args.pkt_size)
                  (λ pos. Stops-ok (λ n. Unit) args.pkt_size tt)))
              (λ size u.
                Stops-bind (λ ts. is_timed t ≡ true → length ts ≡ length rs) IsReady
                  (times_for file_lines stoi t rs) _ (times_for-length t rs)
                  (λ ts g. Stops-ok IsReady _ (record {
                    times =
                        λ timed. g timed ∙ h.0 ∙ ==→eq (length args.cmd_lists) args.n_ratios same;
                    commands = h.1;
                    limit = refl;
                  })))))
