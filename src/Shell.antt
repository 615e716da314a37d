-- ===== src/Shell.antt =====
-- The literal word splitters of src/platform.mjs and the argument quoting of src/core.mjs: a
-- command line becomes an argument vector only when it is one literal command, and the commands
-- that the program prints are quoted for the shell of the host.
pub mod Chars
pub mod Scan
pub mod Bash
pub mod PowerShell
pub mod Cmd
pub mod Quote
pub mod Lines
pub mod BashLines
pub mod PowerShellLines
pub mod RoundTrip
pub mod Backslash
mod Examples
