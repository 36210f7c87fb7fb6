-- ===== src/Examples.antt =====
-- Concrete runs of the modelled code: tests, and one use of each theorem that has hypotheses.
mod BestFitRuns
mod NodeRuns
mod PageRuns
mod SortRuns
mod PrintRuns
mod UsageRuns
mod ControlRuns
mod ChannelRuns
mod SwitcherRuns
mod NetworkRuns
mod BlockRuns
mod MeasuredRuns
mod PipeRuns
mod SocketRuns
mod LinkedRuns
