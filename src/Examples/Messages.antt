-- ===== src/Examples/Messages.antt =====
-- Two errors of different categories.
use Prim.Native.String.{String}
use libhdcp.Base.{ℕ, ◌≢◌, none, sop_not_found, ka_timeout, packet_code, appli_code}
use libhdcp.Messages.{error_code, what, unknown}
use libhdcp.Messages.Distinct.{error_code_lem}

abbrev foreign : ℕ → String
foreign n = "of another library"

error_code_lem_example :
    let c = packet_code sop_not_found in
    let d = appli_code ka_timeout in
    ((error_code c).value ≢ 0)
    × ((error_code d).value ≢ 0)
    × (error_code c ≢ error_code d)
    × (what foreign foreign foreign c none ≢ what foreign foreign foreign d none)
    × (what foreign foreign foreign c none ≢ unknown)
    × (what foreign foreign foreign d none ≢ unknown)
error_code_lem_example =
    error_code_lem foreign foreign foreign (packet_code sop_not_found) (appli_code ka_timeout) tt tt
      (λ e. cc)
