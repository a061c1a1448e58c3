-- ===== src/GoLib/Ascii.antt =====
-- A `Unicode` instance to evaluate the model with: text beyond ASCII is left as it is.
use gh_proxy.Base.{false}
use gh_proxy.GoLib.Strings.{Unicode}

instance abbrev pub plain : Unicode
plain = record { lower = λ s. s; upper = λ s. s; fold = λ s t. false; trim = λ s. s }
