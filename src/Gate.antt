-- ===== src/Gate.antt =====
-- The command classifiers of src/gate.mjs, over the words that the splitters return.
pub mod Literals
pub mod Git
pub mod Push
pub mod GitForm
pub mod PushForm
mod Examples
