-- ===== src/Bench/LoadGen/Request.antt =====
-- load-gen/src/main.rs: the arguments, the number of workers and their rate, the queries of a worker,
-- and one request. What the operating system answers is an argument.
use text.Mathlib.Text.{◌==◌ as str_eq}
use Prim.Native.String.{String}
use nexus_core_devops_engine.Base.{
  ℕ, zero, suc, ◌+◌, ◌/◌, ◌%◌, min, max, Bool, false, List, [], ◌∷◌, Option, none, some, map, ltb,
  ◌==◌, if◌then◌else◌,
}
use nexus_core_devops_engine.Base.Text.{Text, lit, num, repeated, codes, starts_with}

pub record Args : Type 0 where
  pub target : String
  pub rps : ℕ
  pub tenants : ℕ
  pub duration : ℕ
  pub payload_bytes : ℕ
  pub operation : String

-- The workers, and the rate of each; without tenants the division panics.
unfoldable pub worker_plan : ℕ → Args → Option (ℕ × ℕ)
worker_plan ncpus args =
    let workers = min ncpus args.tenants in
    if workers == 0 then none else some (workers, max (args.rps / workers) 1)

-- The lines of /proc/cpuinfo, if it can be read, that name a processor.
unfoldable pub count_processors : List (List ℕ) → ℕ
unfolding starts_with
count_processors [] = 0
count_processors (line ∷ lines) =
    (if starts_with line (codes "processor") then 1 else 0) + count_processors lines

unfoldable pub num_cpus : Option (List (List ℕ)) → ℕ
unfolding count_processors
num_cpus none = 1
num_cpus (some lines) = max (count_processors lines) 1

-- `(first..first + n)`
abbrev pub count_up : ℕ → ℕ → List ℕ
count_up first zero = []
count_up first (suc n) = first ∷ count_up (first + 1) n

abbrev pub write_query : ℕ → ℕ → ℕ → Text
write_query worker_id payload_size t =
    lit "CREATE tenant_"
    ∷ num t
    ∷ lit ":item_"
    ∷ num worker_id
    ∷ lit " SET data = '"
    ∷ repeated "x" (min payload_size 256)
    ∷ lit "', ts = time::now();"
    ∷ []

abbrev pub read_query : ℕ → ℕ → Text
read_query worker_id t =
    lit "SELECT * FROM tenant_" ∷ num t ∷ lit ":item_" ∷ num worker_id ∷ lit " LIMIT 1;" ∷ []

abbrev pub mixed_query : ℕ → ℕ → Text
mixed_query worker_id t =
    if t % 2 == 0
    then lit "SELECT * FROM tenant_"
      ∷ num t
      ∷ lit " WHERE id = 'item_"
      ∷ num worker_id
      ∷ lit "';"
      ∷ []
    else lit "UPDATE tenant_"
      ∷ num t
      ∷ lit ":item_"
      ∷ num worker_id
      ∷ lit " SET ts = time::now(), counter += 1;"
      ∷ []

unfoldable pub queries : ℕ → ℕ → String → ℕ → List Text
queries worker_id payload_size operation tenants =
    let all = count_up 0 tenants in
    if str_eq operation "write"
    then map (write_query worker_id payload_size) all
    else if str_eq operation "read"
    then map (read_query worker_id) all
    else map (mixed_query worker_id) all

-- What a connection does: each `false` and the `none` is an error; a read returns its bytes.
pub record Connection : Type 0 where
  pub connects : Bool
  pub takes_head : Bool
  pub takes_query : Bool
  pub reads : Option ℕ

-- The head of the request, for a query of some bytes.
abbrev request_head : String → ℕ → Text
request_head addr len =
    lit "POST /sql HTTP/1.1\r\nHost: "
    ∷ lit addr
    ∷ lit
        "\r\nContent-Type: application/octet-stream\r\nNS: nexuscore\r\nDB: bench\r\nAccept: application/json\r\nContent-Length: "
    ∷ num len
    ∷ lit "\r\nConnection: close\r\n\r\n"
    ∷ []

unfoldable pub simulate_query : Connection → Bool
simulate_query c =
    if c.connects
    then (if c.takes_head
        then (if c.takes_query then elim c.reads [ none ↦ false | some n ↦ ltb 0 n ] else false)
        else false)
    else false
