-- ===== src/Connection/Statistics.antt =====
-- src/net/UdpClientConnection.cpp: the statistics that read the parts of the pipeline.
use naudio.Prelude.{ℕ, Bool, true, false, none, some, length}
use naudio.Prelude.Int.{ℤ, pos, negsuc, ◌-ℤ◌}
use naudio.Connection.{Connection, Clocks, PacketQueue}

unfoldable pub size : PacketQueue → ℕ
size q = length q.items

unfoldable pub dropped_count : PacketQueue → ℕ
dropped_count q = q.drops

unfoldable pub packets_reordered : Connection → ℕ
packets_reordered c = elim c.reorder_buffer [ none ↦ 0 | some r ↦ r.packets_reordered ]

unfoldable pub packets_recovered_by_fec : Connection → ℕ
packets_recovered_by_fec c = elim c.fec_decoder [ none ↦ 0 | some d ↦ d.packets_recovered_by_fec ]

unfoldable pub sequence_gaps : Connection → ℤ
sequence_gaps c = elim c.reorder_buffer [ none ↦ negsuc 0 | some r ↦ pos r.gaps_emitted ]

unfoldable pub control_retransmits : Connection → ℕ
control_retransmits c = elim c.control_reliability [ none ↦ 0 | some r ↦ r.control_retransmits ]

unfoldable pub fec_blocks_unreconciled : Connection → ℕ
fec_blocks_unreconciled c = elim c.fec_decoder [ none ↦ 0 | some d ↦ d.fec_blocks_unreconciled ]

unfoldable pub fec_pending_packets_discarded : Connection → ℤ
fec_pending_packets_discarded c = elim c.fec_decoder [
  | none ↦ negsuc 0
  | some d ↦ pos d.pending_packets_discarded
]

unfoldable pub fec_pending_idle_timeout_ms : Connection → ℤ
fec_pending_idle_timeout_ms c = elim c.fec_decoder [ none ↦ negsuc 0 | some d ↦ d.pending_idle_ms ]

unfoldable pub measures_sequence_gaps : Connection → Bool
measures_sequence_gaps c = elim c.reorder_buffer [ none ↦ true | some r ↦ false ]

unfoldable pub time_since_last_receive : Clocks → Connection → ℤ
time_since_last_receive t c = t.system_ms -ℤ c.last_receive_time
