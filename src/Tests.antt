-- ===== src/Tests.antt =====
-- Tests of the definitions at concrete inputs, and the theorems at inputs that meet their hypotheses.
mod Options
mod Child
mod Init
mod Streams
mod Jail
mod Cgroups
mod Parent
mod Mounts
mod Start
mod JavaCompile
mod Program
mod Protocol
