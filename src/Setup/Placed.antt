-- ===== src/Setup/Placed.antt =====
-- The clients that `main` has when it sets up the NIC.
use Prim.Native.String.{String}
use psp.Base.{
  ℕ, zero, suc, ◌+◌, ◌%◌, ◌^◌, ◌≤◌, ◌<◌, ◌≡◌, refl, sym, ◌∙◌, Option, none, some, List, [], ◌∷◌,
  length, All, arith, ok, Stops, Stops-ok, Stops-bind, Stops-weaken,
}
use mathlib.Core.Path.{subst}
use native.Mathlib.Nat.{add-zero}
use psp.Sampling.{at}
use psp.Setup.{
  NetContext, Settings, NewClient, ConfigFile, Arguments, ScheduleNode, defined, net_context,
  net_contexts, read_workers, parse_config, default_schedule, place_client, make_default, place_all,
  given_workers, clients_of, make_clients,
}
use psp.Setup.Ready.{
  IsReady, Stops-at, Stops-defined, read_workers-IsReady, default_schedule-IsReady,
}

-- the items satisfy a predicate on their places, which are counted from `k` on
abbrev pub Each : {A : Type 0} → (k : ℕ) → (ℕ → A → Type 0) → List A → Type 0
Each k P [] = Unit
Each k P (x ∷ xs) = P k x × Each (k + 1) P xs

Each-at :
    {A : Type 0} (k : ℕ) (P : ℕ → A → Type 0) (xs : List A) (i : ℕ) (x : A)
    → Each k P xs
    → at xs i ≡ ok x
    → P (k + i) x
unfolding at
Each-at k P [] zero x h is = ground arith
Each-at k P [] (suc i) x h is = ground arith
Each-at k P (y ∷ ys) zero x h is =
    let same : y ≡ x = cc is in subst (λ j. P j x) (sym (add-zero k)) (subst (P k) same h.0)
Each-at k P (y ∷ ys) (suc i) x h is =
    let next : k + 1 + i ≡ k + suc i = omega arith in
    subst (λ j. P j x) next (Each-at (k + 1) P ys i x h.1 is)

module _ (ips remote_ips : List String) (remote_ports : List ℕ) where
  -- The context of a net worker has the address that the file gives it and a port above 32767, and its
  -- packets go to the servers in turn.
  pub record IsContext (i : ℕ) (ctx : NetContext) : Type 0 where
    pub id : ctx.id ≡ i
    pub ip : at ips i ≡ ok ctx.ip
    pub port : ctx.port ≡ 32768 + i % 32767
    pub valid : ctx.port < 2 ^ 16
    pub remote_ip : at remote_ips (i % length remote_ips) ≡ ok ctx.remote_ip
    pub remote_port : at remote_ports (i % length remote_ports) ≡ ok ctx.remote_port

  net_context-IsContext : (i : ℕ) → Stops (IsContext i) (net_context ips remote_ips remote_ports i)
  unfolding net_context
  net_context-IsContext i = Stops-bind _ (IsContext i) (at ips i) _ (Stops-at ips i) (λ ip h.
      Stops-bind _ (IsContext i) (at remote_ips (i % length remote_ips)) _
        (Stops-at remote_ips (i % length remote_ips))
        (λ rip hip.
          Stops-bind _ (IsContext i) (at remote_ports (i % length remote_ports)) _
            (Stops-at remote_ports (i % length remote_ports))
            (λ rport hport. Stops-ok (IsContext i) _ (record {
              id = refl;
              ip = h.0;
              port = refl;
              valid = omega arith;
              remote_ip = hip.0;
              remote_port = hport.0;
            }))))

  net_contexts-IsContext :
      (left i : ℕ)
      → Stops
          (λ cs. (length cs ≡ left) × Each i IsContext cs)
          (net_contexts left i ips remote_ips remote_ports)
  unfolding net_contexts
  net_contexts-IsContext zero i =
      Stops-ok (λ cs. (length cs ≡ 0) × Each i IsContext cs) [] (refl, tt)
  net_contexts-IsContext (suc left) i =
      let Q : List NetContext → Type 0 = λ cs. (length cs ≡ suc left) × Each i IsContext cs in
      Stops-bind (IsContext i) Q (net_context ips remote_ips remote_ports i) _
        (net_context-IsContext i)
        (λ c h.
          Stops-bind (λ cs. (length cs ≡ left) × Each (i + 1) IsContext cs) Q
            (net_contexts left (i + 1) ips remote_ips remote_ports) _
            (net_contexts-IsContext left (i + 1))
            (λ cs g. Stops-ok Q (c ∷ cs) (omega (arith, g.0), (h, g.1))))

-- a worker that was given its schedules, and its processor and context by its place
pub record IsClient (cpus : List ℕ) (ips : List String) (args : Arguments) (i : ℕ) (c : NewClient)
    : Type 0 where
  pub inside : i < length cpus
  pub cpu : at cpus i ≡ ok c.cpu_id
  pub context : IsContext ips args.remote_ips args.remote_ports i c.udp_ctx
  pub ready : All IsReady c.schedules

-- Each net worker of the file has a client, on a processor of its own.
pub record IsSetUp (config : ConfigFile) (args : Arguments) (cs : List NewClient) : Type 0 where
  pub cpus : List ℕ
  pub ips : List String
  pub given_cpus : config.cpus ≡ some cpus
  pub given_ips : config.net_workers ≡ some ips
  pub count : length cs ≡ length ips
  pub enough : length ips ≤ length cpus
  pub clients : Each 0 (IsClient cpus ips args) cs

inside-bound :
    (cpus : List ℕ) (ips : List String) (args : Arguments) (i : ℕ) (cs : List NewClient)
    → Each i (IsClient cpus ips args) cs
    → i ≤ length cpus
    → i + length cs ≤ length cpus
inside-bound cpus ips args i [] h le = omega (arith, le)
inside-bound cpus ips args i (c ∷ cs) h le =
    let first : i < length cpus = h.0.inside in
    omega (arith, inside-bound cpus ips args (i + 1) cs h.1 (omega (arith, first)))

module _ (file_lines : String → Option (List String)) (stoi : String → Option ℕ) (cpus : List ℕ)
    (ips : List String) (args : Arguments) (contexts : List NetContext)
    (good : Each 0 (IsContext ips args.remote_ips args.remote_ports) contexts) where
  place_client-IsClient :
      (i : ℕ) (ss : List Settings)
      → All IsReady ss
      → Stops (IsClient cpus ips args i) (place_client file_lines stoi cpus contexts i ss)
  unfolding place_client
  place_client-IsClient i ss ready =
      Stops-bind _ (IsClient cpus ips args i) (at cpus i) _ (Stops-at cpus i) (λ cpu h.
        Stops-bind _ (IsClient cpus ips args i) (at contexts i) _ (Stops-at contexts i) (λ ctx g.
          Stops-ok (IsClient cpus ips args i) _ (record {
            inside = h.1;
            cpu = h.0;
            context =
                let zeroth : 0 + i ≡ i = omega arith in
                subst (λ k. IsContext ips args.remote_ips args.remote_ports k ctx) zeroth
                  (Each-at 0 (IsContext ips args.remote_ips args.remote_ports) contexts i ctx good
                    g.0);
            ready = ready;
          })))

  -- so many clients from place `i` on
  abbrev Clients : (left i : ℕ) → List NewClient → Type 0
  Clients left i cs = (length cs ≡ left) × Each i (IsClient cpus ips args) cs

  make_default-Clients :
      (left i : ℕ) → Stops (Clients left i) (make_default file_lines stoi left i args cpus contexts)
  unfolding make_default
  make_default-Clients zero i = Stops-ok (Clients 0 i) [] (refl, tt)
  make_default-Clients (suc left) i =
      Stops-bind IsReady (Clients (suc left) i) (default_schedule file_lines stoi args) _
        (default_schedule-IsReady file_lines stoi args)
        (λ s h.
          Stops-bind (IsClient cpus ips args i) (Clients (suc left) i)
            (place_client file_lines stoi cpus contexts i (s ∷ [])) _
            (place_client-IsClient i (s ∷ []) (h, tt))
            (λ c is.
              Stops-bind (Clients left (i + 1)) (Clients (suc left) i)
                (make_default file_lines stoi left (i + 1) args cpus contexts) _
                (make_default-Clients left (i + 1))
                (λ cs g. Stops-ok (Clients (suc left) i) (c ∷ cs) (omega (arith, g.0), (is, g.1)))))

  place_all-Clients :
      (i : ℕ) (ws : List (List Settings))
      → All (All IsReady) ws
      → Stops (Clients (length ws) i) (place_all file_lines stoi i ws cpus contexts)
  unfolding place_all
  place_all-Clients i [] h = Stops-ok (Clients 0 i) [] (refl, tt)
  place_all-Clients i (w ∷ ws) h =
      Stops-bind (IsClient cpus ips args i) (Clients (length (w ∷ ws)) i)
        (place_client file_lines stoi cpus contexts i w) _ (place_client-IsClient i w h.0)
        (λ c is.
          Stops-bind (Clients (length ws) (i + 1)) (Clients (length (w ∷ ws)) i)
            (place_all file_lines stoi (i + 1) ws cpus contexts) _
            (place_all-Clients (i + 1) ws h.1)
            (λ cs g.
              Stops-ok (Clients (length (w ∷ ws)) i) (c ∷ cs) (omega (arith, g.0), (is, g.1))))

  -- there are no workers yet, or as many as contexts
  pub clients_of-Clients :
      (ws : List (List Settings))
      → All (All IsReady) ws
      → (suc zero ≤ length ws → length ws ≡ length contexts)
      → Stops (Clients (length contexts) 0) (clients_of file_lines stoi args (cpus, contexts, ws))
  clients_of-Clients [] h same = make_default-Clients (length contexts) 0
  clients_of-Clients (w ∷ ws) h same =
      subst (λ n. Stops (Clients n 0) (place_all file_lines stoi 0 (w ∷ ws) cpus contexts))
        (same (omega arith)) (place_all-Clients 0 (w ∷ ws) h)

module _ (file_lines : String → Option (List String)) (stoi : String → Option ℕ) where
  given_workers-IsReady :
      (n : ℕ) (o : Option (List ScheduleNode))
      → Stops
          (λ ws. (suc zero ≤ length ws → length ws ≡ n) × All (All IsReady) ws)
          (given_workers file_lines stoi n o)
  given_workers-IsReady n none =
      Stops-ok (λ ws. (suc zero ≤ length ws → length ws ≡ n) × All (All IsReady) ws) []
        ((λ le. omega (arith, le)), tt)
  given_workers-IsReady n (some nodes) =
      Stops-weaken (λ ws. (length ws ≡ n) × All (All IsReady) ws)
        (λ ws. (suc zero ≤ length ws → length ws ≡ n) × All (All IsReady) ws)
        (read_workers file_lines stoi n nodes) (read_workers-IsReady file_lines stoi n nodes)
        (λ ws h. ((λ le. h.0), h.1))

  -- the result of `parse_config`
  pub record IsParsed (config : ConfigFile) (args : Arguments)
      (parsed : List ℕ × List NetContext × List (List Settings)) : Type 0 where
    pub ips : List String
    pub given_cpus : config.cpus ≡ some parsed.0
    pub given_ips : config.net_workers ≡ some ips
    pub n_contexts : length parsed.1 ≡ length ips
    pub contexts : Each 0 (IsContext ips args.remote_ips args.remote_ports) parsed.1
    pub n_workers : suc zero ≤ length parsed.2 → length parsed.2 ≡ length ips
    pub ready : All (All IsReady) parsed.2

  parse_config-IsParsed :
      (config : ConfigFile) (args : Arguments)
      → Stops (IsParsed config args) (parse_config file_lines stoi config args)
  unfolding parse_config
  parse_config-IsParsed config args =
      let P : List ℕ × List NetContext × List (List Settings) → Type 0 = IsParsed config args in
      Stops-bind _ P (defined config.cpus) _ (Stops-defined config.cpus) (λ cpus hc.
        Stops-bind _ P (defined config.net_workers) _ (Stops-defined config.net_workers) (λ ips hi.
          Stops-bind _ P (net_contexts (length ips) 0 ips args.remote_ips args.remote_ports) _
            (net_contexts-IsContext ips args.remote_ips args.remote_ports (length ips) 0)
            (λ ctxs hx.
              Stops-bind _ P (given_workers file_lines stoi (length ips) config.schedules) _
                (given_workers-IsReady (length ips) config.schedules)
                (λ ws hw.
                  Stops-ok P (cpus, ctxs, ws)
                    (record {
                      ips = ips;
                      given_cpus = hc;
                      given_ips = hi;
                      n_contexts = hx.0;
                      contexts = hx.1;
                      n_workers = hw.0;
                      ready = hw.1;
                    })))))

  -- If the set-up of the clients returns, then each net worker of the configuration has one client:
  -- on the processor at its place, so that there are no more net workers than processors, with the
  -- context whose address, port and server its place gives, and with schedules whose work times and
  -- commands suffice for the generation of requests. Otherwise it aborts or reads outside a vector.
  pub make_clients-IsSetUp :
      (config : ConfigFile) (args : Arguments)
      → Stops (IsSetUp config args) (make_clients file_lines stoi config args)
  unfolding make_clients
  make_clients-IsSetUp config args =
      Stops-bind (IsParsed config args) (IsSetUp config args)
        (parse_config file_lines stoi config args) _ (parse_config-IsParsed config args)
        (λ p h.
          Stops-weaken _ (IsSetUp config args) (clients_of file_lines stoi args (p.0, p.1, p.2))
            (clients_of-Clients file_lines stoi p.0 h.ips args p.1 h.contexts p.2 h.ready
              (λ le. h.n_workers le ∙ sym h.n_contexts))
            (λ cs g. record {
              cpus = p.0;
              ips = h.ips;
              given_cpus = h.given_cpus;
              given_ips = h.given_ips;
              count = g.0 ∙ h.n_contexts;
              enough =
                  omega
                    (arith, inside-bound p.0 h.ips args 0 cs g.1 (omega arith), g.0, h.n_contexts);
              clients = g.1;
            }))
