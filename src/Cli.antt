-- ===== src/Cli.antt =====
-- internal/cli/converse_npeer.go: the --peer flags of converse. Cli.Pairs is the list of a flag,
-- Cli.Specs the peers that the flags declare. A text is its characters; the ones that the parser
-- looks for are ASCII. Wiring and TwoPeers are what converse_npeer_run.go and converse.go make of the
-- flags, Knobs the checks that they share. The rest prove.
pub mod Pairs
pub mod RoundTrip
pub mod Fuel
pub mod Specs
pub mod Declared
pub mod Accepted
pub mod Wiring
pub mod Knobs
pub mod TwoPeers
pub mod Ranges
pub mod Runs
